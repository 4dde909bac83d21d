-- ===== src/ExecutionLane/EnvRound.antt =====
-- The whole environment file of packages/execution_lane/credentials.py, written and read back.
use nautilus_builder.Prelude.{
  true, Option, none, some, String, [], ◌∷◌, ◌==◌, string_eq, if◌then◌else◌, map, ◌≡◌, refl, sym,
  ap, ◌∙◌, arith, eq_iff,
}
use mathlib.Core.Path.{subst}
use nautilus_builder.Prelude.Text.{append}
use nautilus_builder.Prelude.Slashes.{append_assoc}
use nautilus_builder.Prelude.Sorted.{sorted_by, insert_by}
use nautilus_builder.Prelude.Dict.{Dict, get, put}
use nautilus_builder.Prelude.Dict.Laws.{get-put, Entries, put-Entries}
use nautilus_builder.Prelude.Dict.Unique.{Unique, put-Unique}
use nautilus_builder.ExecutionLane.EnvFile.{
  splitlines, is_env_key, read_lines, read_env_file, line_of, join_lines, update, key_of,
  write_env_values,
}
use nautilus_builder.ExecutionLane.EnvLines.{
  IsTidy, splitlines-append, line_unbroken, parse_line-line_of,
}

-- An entry that the file can hold.
abbrev pub IsStorable : String → String → Type 0
IsStorable k v = (is_env_key k ≡ true) × IsTidy v

abbrev pub AllStorable : Dict String String → Type 0
AllStorable = Entries IsStorable

-- `get` in one dictionary, and then in another.
abbrev pub or_get : Option String → Option String → Option String
or_get none o = o
or_get (some v) o = some v

pub get-update :
    (k : String) (existing values : Dict String String)
    → Unique values
    → get k (update existing values) ≡ or_get (get k values) (get k existing)
unfolding update get
get-update k existing [] u = refl
get-update k existing ((j, v) ∷ values) u =
    get-update k (put j v existing) values u.1
    ∙ ground (arith, get-put j k v existing, eq_iff j k, get-update k (put j v existing) values u.1)

update-AllStorable :
    (existing values : Dict String String)
    → AllStorable existing
    → AllStorable values
    → AllStorable (update existing values)
unfolding update
update-AllStorable existing [] h q = h
update-AllStorable existing ((j, v) ∷ values) h q =
    update-AllStorable (put j v existing) values (put-Entries IsStorable j v existing h q.0) q.1

update-Unique :
    (existing values : Dict String String) → Unique existing → Unique (update existing values)
unfolding update
update-Unique existing [] h = h
update-Unique existing ((j, v) ∷ values) h =
    update-Unique (put j v existing) values (put-Unique j v existing h)

get-insert_by :
    (k j v : String) (d : Dict String String)
    → get j d ≡ none
    → get k (insert_by key_of (j, v) d) ≡ (if j == k then some v else get k d)
unfolding insert_by get
get-insert_by k j v [] h = refl
get-insert_by k j v ((i, w) ∷ d) h =
    ground (arith, get-insert_by k j v d, eq_iff j k, eq_iff i k, eq_iff i j)

insert_by-Unique :
    (j v : String) (d : Dict String String)
    → get j d ≡ none
    → Unique d
    → Unique (insert_by key_of (j, v) d)
unfolding insert_by get
insert_by-Unique j v [] h u = (h, tt)
insert_by-Unique j v ((i, w) ∷ d) h u =
    ground (arith, insert_by-Unique j v d, get-insert_by i j v d, eq_iff i j, eq_iff j i)

insert_by-AllStorable :
    (j v : String) (d : Dict String String)
    → IsStorable j v
    → AllStorable d
    → AllStorable (insert_by key_of (j, v) d)
unfolding insert_by
insert_by-AllStorable j v [] p h = (p, tt)
insert_by-AllStorable j v ((i, w) ∷ d) p h = ground (arith, insert_by-AllStorable j v d p h.1)

-- Sorting keeps what is found under each key, and that no key stands twice.
pub get-sorted_by :
    (k : String) (d : Dict String String)
    → Unique d
    → (get k (sorted_by key_of d) ≡ get k d) × Unique (sorted_by key_of d)
unfolding sorted_by get
get-sorted_by k [] u = (refl, tt)
get-sorted_by k ((j, v) ∷ d) u =
    let (same, unique) = get-sorted_by k d u.1 in
    let (absent, _) = get-sorted_by j d u.1 in
    let new : get j (sorted_by key_of d) ≡ none = absent ∙ u.0 in
    (
      get-insert_by k j v (sorted_by key_of d) new ∙ ap (λ o. if j == k then some v else o) same,
      insert_by-Unique j v (sorted_by key_of d) new unique,
    )

pub sorted_by-AllStorable :
    (d : Dict String String) → AllStorable d → AllStorable (sorted_by key_of d)
unfolding sorted_by
sorted_by-AllStorable [] h = tt
sorted_by-AllStorable ((j, v) ∷ d) h =
    insert_by-AllStorable j v (sorted_by key_of d) h.0 (sorted_by-AllStorable d h.1)

-- The lines of the text are the lines of the entries.
splitlines-join_lines :
    (k v : String) (d : Dict String String)
    → IsStorable k v
    → AllStorable d
    → splitlines (append (join_lines ((k, v) ∷ d)) "\n") ≡ map line_of ((k, v) ∷ d)
unfolding join_lines
splitlines-join_lines k v [] p h =
    splitlines-append (line_of (k, v)) "" (line_unbroken k v p.0 p.1) ∙ (unfold splitlines in refl)
splitlines-join_lines k v ((j, w) ∷ d) p h =
    let line = line_of (k, v) in
    let rest = join_lines ((j, w) ∷ d) in
    ap splitlines
      (append_assoc line (append "\n" rest) "\n" ∙ ap (append line) (append_assoc "\n" rest "\n"))
    ∙ splitlines-append line (append rest "\n") (line_unbroken k v p.0 p.1)
    ∙ ap (line ∷◌) (splitlines-join_lines j w d h.0 h.1)

read_lines-line_of :
    (d values : Dict String String)
    → AllStorable d
    → read_lines (map line_of d) values ≡ update values d
unfolding read_lines update
read_lines-line_of [] values h = refl
read_lines-line_of ((k, v) ∷ d) values h =
    rw (parse_line-line_of k v h.0.0 h.0.1, read_lines) (read_lines-line_of d (put k v values) h.1)

-- A file that the store can have left: none, or the text of entries that it can hold.
pub data IsWritten : Option String → Type 0 where
  no_file : IsWritten none
  written :
      (k v : String) (d : Dict String String)
      → AllStorable ((k, v) ∷ d)
      → Unique ((k, v) ∷ d)
      → IsWritten (some (append (join_lines ((k, v) ∷ d)) "\n"))

read_text :
    (k v : String) (d : Dict String String)
    → AllStorable ((k, v) ∷ d)
    → read_env_file (some (append (join_lines ((k, v) ∷ d)) "\n")) ≡ update [] ((k, v) ∷ d)
unfolding read_env_file
read_text k v d h =
    ap (λ lines. read_lines lines []) (splitlines-join_lines k v d h.0 h.1)
    ∙ read_lines-line_of ((k, v) ∷ d) [] h

or_get-none : (o : Option String) → or_get o none ≡ o
or_get-none none = refl
or_get-none (some v) = refl

-- What is read from such a file can be written again.
read_IsWritten :
    {file : Option String}
    → IsWritten file
    → AllStorable (read_env_file file) × Unique (read_env_file file)
unfolding read_env_file
read_IsWritten no_file = (tt, tt)
read_IsWritten (written k v d h u) =
    let back = sym (read_text k v d h) in
    (
      subst AllStorable back (update-AllStorable [] ((k, v) ∷ d) tt h),
      subst (λ (e : Dict String String). Unique e) back (update-Unique [] ((k, v) ∷ d) tt),
    )

text_round :
    (d : Dict String String) (j w : String)
    → get j d ≡ some w
    → AllStorable d
    → Unique d
    → IsWritten (some (append (join_lines d) "\n"))
      × ((k : String) → get k (read_env_file (some (append (join_lines d) "\n"))) ≡ get k d)
unfolding get
text_round [] j w found h u = cc
text_round ((i, v) ∷ d) j w found h u = (
  written i v d h u,
  λ k.
      ap (get k) (read_text i v d h)
      ∙ get-update k [] ((i, v) ∷ d) u
      ∙ or_get-none (get k ((i, v) ∷ d)),
)

module _ {file : Option String} (was : IsWritten file) (values : Dict String String) (j w : String)
    (found : get j values ≡ some w) (storable : AllStorable values) (unique : Unique values) where
  -- After a write, each key has its new value, or else the old one, and the file can be written again.
  pub write_env_values_lem :
      IsWritten (some (write_env_values values file))
      × ((k : String)
          → get k (read_env_file (some (write_env_values values file)))
            ≡ or_get (get k values) (get k (read_env_file file)))
  unfolding write_env_values
  write_env_values_lem =
      let (old, once) = read_IsWritten was in
      let existing = read_env_file file in
      let all = update existing values in
      let all_once = update-Unique existing values once in
      let sorted = λ (k : String). get-sorted_by k all all_once in
      let got = λ (k : String). (sorted k).0 ∙ get-update k existing values unique in
      let (next, reads) =
        text_round (sorted_by key_of all) j w (got j ∙ ap (λ o. or_get o (get j existing)) found)
          (sorted_by-AllStorable all (update-AllStorable existing values old storable))
          (sorted j).1 in
      (next, λ k. reads k ∙ got k)
