-- ===== src/Storage/Mark.antt =====
-- A load after `mark_key_uploaded` has written its metadata.
use lattica_studio.Prelude.{String, ◌≡◌, refl, sym, ap, ◌∙◌, some, Bool, true, false}
use lattica_studio.Prelude.Dict.{string_eq, get, insert, get-insert}
use lattica_studio.Result.{Result, ok, err, key_storage_error, or_raise, >>=-eq-ok}
use lattica_studio.Studio.{get_field}
use lattica_studio.Credentials.{TokenIdentity, identity_to_dict, identity_from_dict, make_key}
use lattica_studio.Credentials.RoundTrip.{identity_round, identity_from_dict-made}
use lattica_studio.Storage.{document, Folder, Name}
use lattica_studio.Storage.Load.{
  StoredKey, uploaded, load_metadata, read_artifact, load_with, load_folder, as_storage_error,
  bytes_of, bool_of,
}
use lattica_studio.Storage.Save.{metadata_fields, metadata_of}

storage_ok :
    (r : Result TokenIdentity) (token : TokenIdentity)
    → as_storage_error r ≡ ok token
    → r ≡ ok token
storage_ok (ok t) token h = h
storage_ok (err e) token h = cc

abbrev pub marked : TokenIdentity → Folder → Folder
marked token files = insert "metadata.json" (document (metadata_of token true)) files

-- Another file is read as before.
pub read-marked :
    (token : TokenIdentity) (files : Folder) (file : String)
    → string_eq.beq "metadata.json" file ≡ false
    → read_artifact (marked token files) file ≡ read_artifact files file
unfolding read_artifact
read-marked token files file h =
    ap bytes_of
      (get-insert file "metadata.json" (document (metadata_of token true)) files ∙ rw h refl)

load_with-marked :
    (revision : Name) (files : Folder) (flag : Bool) (made : Result TokenIdentity)
    (stored : StoredKey)
    → load_with revision files flag made ≡ ok stored
    → (made ≡ ok stored.token)
      × (load_with revision (marked stored.token files) true (ok stored.token)
          ≡ ok (uploaded stored))
unfolding load_with uploaded
load_with-marked revision files flag made stored h =
    let (t, e1, h1) = >>=-eq-ok made _ h in
    let (v, e2, h2) = >>=-eq-ok (read_artifact files "evaluation-key.bin") _ h1 in
    let (c, e3, h3) = >>=-eq-ok (read_artifact files "context.bin") _ h2 in
    let (s, e4, h4) = >>=-eq-ok (read_artifact files "secret-key.bin") _ h3 in
    let (m, e5, h5) = >>=-eq-ok (read_artifact files "client-model.bin") _ h4 in
    let (k, e6, h6) = >>=-eq-ok (make_key c s m) _ h5 in
    let same_token : t ≡ stored.token = cc h6 in
    let r2 = read-marked stored.token files "evaluation-key.bin" refl ∙ e2 in
    let r3 = read-marked stored.token files "context.bin" refl ∙ e3 in
    let r4 = read-marked stored.token files "secret-key.bin" refl ∙ e4 in
    let r5 = read-marked stored.token files "client-model.bin" refl ∙ e5 in
    let same : (record { token = t; key = k; revision = revision; evaluation_key_uploaded = flag })
        ≡ stored =
      cc h6 in
    let last = λ (token : TokenIdentity).
      let r : StoredKey = record {
        token = token;
        key = k;
        revision = revision;
        evaluation_key_uploaded = true;
      } in
      r in
    (
      e1 ∙ ap ok same_token,
      rw (r2, r3, r4, r5, e6) (ap ok (ap last (sym same_token) ∙ ap uploaded same)),
    )

metadata-marked :
    (token : TokenIdentity) (files : Folder)
    → load_metadata (marked token files) ≡ ok (metadata_fields token true)
unfolding load_metadata get_field
metadata-marked token files =
    let there : get "metadata.json" (marked token files)
        ≡ some (document (metadata_of token true)) =
      get-insert "metadata.json" "metadata.json" (document (metadata_of token true)) files in
    rw there

-- The directory with its metadata marked loads as the record marked as uploaded.
pub load_folder-marked :
    (revision : Name) (files : Folder) (stored : StoredKey)
    → load_folder revision files ≡ ok stored
    → load_folder revision (marked stored.token files) ≡ ok (uploaded stored)
unfolding load_folder get_field identity_to_dict
load_folder-marked revision files stored h =
    let (metadata, e1, h1) = >>=-eq-ok (load_metadata files) _ h in
    let (j, e2, h2) = >>=-eq-ok (or_raise (get_field metadata "token") key_storage_error) _ h1 in
    let (flag, e3, h3) = >>=-eq-ok (bool_of (get_field metadata "evaluation_key_uploaded")) _ h2 in
    let (made, marked_loads) =
      load_with-marked revision files flag (as_storage_error (identity_from_dict j)) stored h3 in
    let fine =
      identity_from_dict-made j stored.token
        (storage_ok (identity_from_dict j) stored.token made) in
    let read = metadata-marked stored.token files in
    let again = identity_round stored.token fine in rw (read, again) marked_loads
