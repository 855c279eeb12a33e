-- ===== src/Storage/Views.antt =====
-- What a load sees of a key's directory: the revision that "current" names, and nothing else.
use mathlib.Core.List.{reverse, reverse-reverse, reverse-cons}
use mathlib.Core.Path.{subst}
use lattica_studio.Prelude.{
  String, ◌≡◌, refl, ap, ◌⊎◌, ◌∙◌, [], ◌∷◌, ◌++◌, ◌&&◌, none, some, Bool, true, false, inl, inr,
  arith, length, ◌==◌, Option-cases, Bool-cases,
}
use lattica_studio.Prelude.Dict.{
  string_eq, list_eq, codes_eq, codes_eq_iff, get, insert, remove, get-remove,
}
use lattica_studio.Result.{Result, ok, key_storage_error, or_raise, >>=-eq-ok}
use lattica_studio.Studio.{get_field}
use lattica_studio.Credentials.{
  TokenIdentity, make_identity, identity_to_dict, identity_from_dict, Bytes, is_empty, is_space,
  QueryKey, make_key,
}
use lattica_studio.Credentials.RoundTrip.{identity_round}
use lattica_studio.Storage.{raw, document, Folder, Name, KeyFolder}
use lattica_studio.Storage.Load.{
  StoredKey, lstrip, strip, all_hex, resolve_current_bundle, load_metadata, read_artifact,
  load_with, as_storage_error, bool_of, load_folder, bytes_of,
}
use lattica_studio.Storage.Save.{staging, metadata_fields, metadata_of}

-- `w'` has the "current" of `w`, and its revisions but for `revision` and what is staged for it.
pub record Keeps (revision : Name) (w w' : KeyFolder) : Type 0 where
  pub current_kept : w'.current ≡ w.current
  pub others_kept :
      (name : Name)
      → codes_eq revision name ≡ false
      → codes_eq (staging revision) name ≡ false
      → get name w'.revisions ≡ get name w.revisions

-- "current" does not name the revision.
abbrev pub IsOther : Name → KeyFolder → Type 0
IsOther revision w =
    (written : Name) → w.current ≡ some written → codes_eq revision (strip written) ≡ false

pub resolve-Keeps :
    (revision : Name) (w w' : KeyFolder)
    → IsOther revision w
    → Keeps revision w w'
    → resolve_current_bundle w' ≡ resolve_current_bundle w
unfolding resolve_current_bundle
resolve-Keeps revision w w' other keeps =
    let c = keeps.current_kept in
    elim (Option-cases w.current) [
      | inl e ↦ rw (c, e)
      | inr (written, e) ↦ elim (Bool-cases (codes_eq (staging revision) (strip written))) [
        | inl staged ↦
            let here = (codes_eq_iff (staging revision) (strip written)).0 staged in
            let no_name : all_hex (strip written) ≡ false = rw (← here) refl in
            elim (Bool-cases (length (strip written) == 32)) [
              | inl long ↦ rw (c, e, long, no_name)
              | inr short ↦ rw (c, e, short)
            ]
        | inr free ↦
            let same = keeps.others_kept (strip written) (other written e) free in rw (c, e, same)
      ]
    ]

lstrip-hex : (name : Name) → all_hex name ≡ true → lstrip name ≡ name
unfolding lstrip is_space
lstrip-hex [] h = refl
lstrip-hex (c ∷ cs) h = ground arith

all_hex-append : (xs ys : Name) → all_hex (xs ++ ys) ≡ (all_hex xs && all_hex ys)
all_hex-append [] ys = refl
all_hex-append (x ∷ xs) ys = let rest = all_hex-append xs ys in ground arith

all_hex-reverse : (xs : Name) → all_hex (reverse xs) ≡ all_hex xs
all_hex-reverse [] = refl
all_hex-reverse (x ∷ xs) =
    let rest = all_hex-reverse xs in
    let last = all_hex-append (reverse xs) (x ∷ []) in
    rw (reverse-cons x xs) (ground (arith, rest, last))

pub strip-hex : (name : Name) → all_hex name ≡ true → strip name ≡ name
strip-hex name h =
    let back : all_hex (reverse name) ≡ true = all_hex-reverse name ∙ h in
    ap (λ x. reverse (lstrip (reverse x))) (lstrip-hex name h)
    ∙ ap reverse (lstrip-hex (reverse name) back)
    ∙ reverse-reverse name

-- The files that a save writes, as a directory.
abbrev pub complete : TokenIdentity → QueryKey → Bytes → Bool → Folder
complete token key evaluation_key is_uploaded =
    insert "metadata.json" (document (metadata_of token is_uploaded)) (
      insert "evaluation-key.bin" (raw evaluation_key) (
        insert "client-model.bin" (raw key.client_model) (
          insert "secret-key.bin" (raw key.secret_key)
            (insert "context.bin" (raw key.context) []))))

-- What the constructors of a token's identity and of a key have made.
pub record AreMade (token : TokenIdentity) (key : QueryKey) (evaluation_key : Bytes) : Type 0 where
  pub token_made : make_identity token.id token.name ≡ ok token
  pub key_made : make_key key.context key.secret_key key.client_model ≡ ok key
  pub evaluation_key_made : is_empty evaluation_key ≡ false

bytes-raw : (bs : Bytes) → is_empty bs ≡ false → bytes_of (some (raw bs)) ≡ ok bs
bytes-raw [] h = cc
bytes-raw (b ∷ bs) h = refl

key_fields :
    (a b c : Bytes) (key : QueryKey)
    → make_key a b c ≡ ok key
    → (is_empty a ≡ false) × (is_empty b ≡ false) × (is_empty c ≡ false)
unfolding make_key
key_fields [] b c key h = cc
key_fields (x ∷ a) [] c key h = cc
key_fields (x ∷ a) (y ∷ b) [] key h = cc
key_fields (x ∷ a) (y ∷ b) (z ∷ c) key h = (refl, refl, refl)

pub make_key-made :
    (a b c : Bytes) (key : QueryKey)
    → make_key a b c ≡ ok key
    → make_key key.context key.secret_key key.client_model ≡ ok key
unfolding make_key
make_key-made [] b c key h = cc
make_key-made (x ∷ a) [] c key h = cc
make_key-made (x ∷ a) (y ∷ b) [] key h = cc
make_key-made (x ∷ a) (y ∷ b) (z ∷ c) key h =
    let same : (record { context = x ∷ a; secret_key = y ∷ b; client_model = z ∷ c }) ≡ key =
      cc h in
    subst (λ (k : QueryKey). make_key k.context k.secret_key k.client_model ≡ ok k) same refl

pub load_folder-complete :
    (token : TokenIdentity) (key : QueryKey) (evaluation_key : Bytes) (is_uploaded : Bool)
    (revision : Name)
    → AreMade token key evaluation_key
    → load_folder revision (complete token key evaluation_key is_uploaded)
      ≡ ok (record {
        token = token;
        key = key;
        revision = revision;
        evaluation_key_uploaded = is_uploaded;
      })
unfolding load_folder load_metadata read_artifact load_with insert get get_field identity_to_dict
load_folder-complete token key evaluation_key is_uploaded revision made =
    let e = identity_round token made.token_made in
    let (c, s, m) = key_fields key.context key.secret_key key.client_model key made.key_made in
    let ec = bytes-raw key.context c in
    let es = bytes-raw key.secret_key s in
    let em = bytes-raw key.client_model m in
    let ee = bytes-raw evaluation_key made.evaluation_key_made in
    let ek = made.key_made in rw (e, ee, ec, es, em, ek)

-- A directory whose metadata, if it has any, says that the evaluation key is not uploaded.
abbrev pub IsPending : TokenIdentity → Folder → Type 0
IsPending token files =
    (get "metadata.json" files ≡ none)
    ⊎ (get "metadata.json" files ≡ some (document (metadata_of token false)))

-- What a load goes through after the metadata: the flag is the record's.
load_rest :
    (files : Folder) (revision : Name) (flag : Bool) (token : Result TokenIdentity)
    (stored : StoredKey)
    → load_with revision files flag token ≡ ok stored
    → (stored.evaluation_key_uploaded ≡ flag) × (stored.revision ≡ revision)
unfolding load_with
load_rest files revision flag token stored h =
    let (t, e1, h1) = >>=-eq-ok token _ h in
    let (v, e2, h2) = >>=-eq-ok (read_artifact files "evaluation-key.bin") _ h1 in
    let (c, e3, h3) = >>=-eq-ok (read_artifact files "context.bin") _ h2 in
    let (s, e4, h4) = >>=-eq-ok (read_artifact files "secret-key.bin") _ h3 in
    let (m, e5, h5) = >>=-eq-ok (read_artifact files "client-model.bin") _ h4 in
    let (k, e6, h6) = >>=-eq-ok (make_key c s m) _ h5 in (ground arith, ground arith)

metadata_read :
    (token : TokenIdentity) (files : Folder)
    → get "metadata.json" files ≡ some (document (metadata_of token false))
    → load_metadata files ≡ ok (metadata_fields token false)
unfolding load_metadata get_field
metadata_read token files e = rw e

pub load_folder-IsPending :
    (token : TokenIdentity) (files : Folder) (revision : Name) (stored : StoredKey)
    → IsPending token files
    → load_folder revision files ≡ ok stored
    → stored.evaluation_key_uploaded ≡ false
unfolding load_folder load_metadata get_field identity_to_dict
load_folder-IsPending token files revision stored (inl e) h = cc (rw e at h)
load_folder-IsPending token files revision stored (inr e) h =
    let read = metadata_read token files e in
    (load_rest files revision false (as_storage_error (identity_from_dict (identity_to_dict token)))
      stored (rw read at h)).0

pub load_folder-revision :
    (files : Folder) (revision : Name) (stored : StoredKey)
    → load_folder revision files ≡ ok stored
    → stored.revision ≡ revision
unfolding load_folder get_field
load_folder-revision files revision stored h =
    let (metadata, e1, h1) = >>=-eq-ok (load_metadata files) _ h in
    let (j, e2, h2) = >>=-eq-ok (or_raise (get_field metadata "token") key_storage_error) _ h1 in
    let (flag, e3, h3) = >>=-eq-ok (bool_of (get_field metadata "evaluation_key_uploaded")) _ h2 in
    (load_rest files revision flag (as_storage_error (identity_from_dict j)) stored h3).1

pub complete-IsPending :
    (token : TokenIdentity) (key : QueryKey) (evaluation_key : Bytes)
    → IsPending token (complete token key evaluation_key false)
unfolding get insert
complete-IsPending token key evaluation_key = inr refl

pub IsPending-remove :
    (token : TokenIdentity) (file : String) (files : Folder)
    → IsPending token files
    → IsPending token (remove file files)
IsPending-remove token file files pending = elim (Bool-cases (string_eq.beq file "metadata.json")) [
  | inl gone ↦ inl (get-remove "metadata.json" file files ∙ rw gone refl)
  | inr there ↦
      let same = get-remove "metadata.json" file files ∙ rw there refl in
      elim pending [ inl e ↦ inl (same ∙ e) | inr e ↦ inr (same ∙ e) ]
]
