-- ===== src/Artifacts/Codec.antt =====
-- A codec that fulfils what the store of packages/artifact_store relies on. Its canonical text of a
-- payload holds the keys alone.
use Prim.Native.Char.{Char, code}
use Prim.Native.String.{char_at}
use nautilus_builder.Prelude.{
  true, false, Option, none, some, String, List, [], ◌∷◌, ◌≡◌, refl, ap, ◌∙◌, ◌==◌, nat_eq,
}
use nautilus_builder.Prelude.Dict.{Dict}
use nautilus_builder.Json.{Payload, null}
use nautilus_builder.Artifacts.Store.{StoredJsonArtifact, Codec}
use nautilus_builder.Artifacts.RoundTrip.{IsLawful}

zero_char : Char
zero_char = char_at "0" 0

one_char : Char
one_char = char_at "1" 0

-- A text, each character behind a one, and closed by a zero.
coded : String → String → String
coded String.[] rest = String.◌∷◌ zero_char rest
coded (String.◌∷◌ c s) rest = let more = coded s rest in String.◌∷◌ one_char (String.◌∷◌ c more)

write_texts : List String → String
write_texts [] = String.[]
write_texts (t ∷ ts) = coded t (write_texts ts)

abbrev onto_first : Char → List String → List String
onto_first c [] = []
onto_first c (t ∷ ts) = String.◌∷◌ c t ∷ ts

read_texts : String → List String
read_texts String.[] = []
read_texts (String.◌∷◌ d String.[]) = String.[] ∷ []
read_texts (String.◌∷◌ d (String.◌∷◌ c s)) = elim (code d == 48) [
  | true ↦ String.[] ∷ read_texts (String.◌∷◌ c s)
  | false ↦ onto_first c (read_texts s)
]

read_texts_zero : (s : String) → read_texts (String.◌∷◌ zero_char s) ≡ String.[] ∷ read_texts s
unfolding read_texts zero_char
read_texts_zero String.[] = refl
read_texts_zero (String.◌∷◌ c s) = refl

read_texts_one :
    (c : Char) (s : String)
    → read_texts (String.◌∷◌ one_char (String.◌∷◌ c s)) ≡ onto_first c (read_texts s)
unfolding read_texts one_char
read_texts_one c s = refl

read_texts-coded : (t rest : String) → read_texts (coded t rest) ≡ t ∷ read_texts rest
unfolding coded
read_texts-coded String.[] rest = read_texts_zero rest
read_texts-coded (String.◌∷◌ c t) rest =
    read_texts_one c (coded t rest) ∙ ap (onto_first c) (read_texts-coded t rest)

read_texts-write_texts : (ts : List String) → read_texts (write_texts ts) ≡ ts
unfolding write_texts
read_texts-write_texts [] = unfold read_texts in refl
read_texts-write_texts (t ∷ ts) =
    read_texts-coded t (write_texts ts) ∙ ap (t ∷◌) (read_texts-write_texts ts)

keys : Payload → List String
keys [] = []
keys ((k, v) ∷ d) = k ∷ keys d

nulls : List String → Payload
nulls [] = []
nulls (k ∷ ks) = (k, null) ∷ nulls ks

keys-nulls : (ks : List String) → keys (nulls ks) ≡ ks
unfolding keys nulls
keys-nulls [] = refl
keys-nulls (k ∷ ks) = ap (k ∷◌) (keys-nulls ks)

flat : Dict String String → List String
flat [] = []
flat ((k, v) ∷ d) = k ∷ v ∷ flat d

pairs : List String → Dict String String
pairs (k ∷ v ∷ ts) = (k, v) ∷ pairs ts
pairs _ = []

pairs-flat : (d : Dict String String) → pairs (flat d) ≡ d
unfolding pairs flat
pairs-flat [] = refl
pairs-flat ((k, v) ∷ d) = ap ((k, v) ∷◌) (pairs-flat d)

texts_of : StoredJsonArtifact → List String
texts_of e =
    let r = e.entry in
    r.artifact_ref
    ∷ r.artifact_type
    ∷ r.artifact_id
    ∷ r.user_id
    ∷ r.project_id
    ∷ r.path
    ∷ r.checksum_sha256
    ∷ r.content_type
    ∷ r.created_at
    ∷ write_texts (keys e.payload)
    ∷ flat r.metadata

of_texts : List String → Option StoredJsonArtifact
of_texts (ref ∷ kind ∷ id ∷ user ∷ project ∷ path ∷ sum ∷ content ∷ created ∷ payload ∷ rest) =
    some (record {
      entry = record {
        artifact_ref = ref;
        artifact_type = kind;
        artifact_id = id;
        user_id = user;
        project_id = project;
        path = path;
        checksum_sha256 = sum;
        content_type = content;
        created_at = created;
        metadata = pairs rest;
      };
      payload = nulls (read_texts payload);
    })
of_texts _ = none

unfoldable pub codec : Codec
unfolding write_texts keys coded texts_of of_texts read_texts zero_char one_char flat pairs nulls
codec = record {
  canonical_json = λ p. write_texts (keys p);
  sha256 = λ s. coded s "";
  write = λ e. write_texts (texts_of e);
  read = λ s. of_texts (read_texts s);
}

read-write :
    (e : StoredJsonArtifact)
    → of_texts (read_texts (write_texts (texts_of e)))
      ≡ some (record e { payload = nulls (keys e.payload) })
unfolding of_texts texts_of
read-write e = ap of_texts (read_texts-write_texts (texts_of e)) ∙ (λ i. some (record {
  entry = record e.entry { metadata = pairs-flat e.entry.metadata i };
  payload = nulls (read_texts-write_texts (keys e.payload) i);
}))

pub codec-IsLawful : IsLawful codec
unfolding codec
codec-IsLawful = record {
  read-write =
      λ e. (nulls (keys e.payload), read-write e, ap write_texts (keys-nulls (keys e.payload)));
}
