-- ===== src/Storage/Current.antt =====
-- The revision that "current" names: what it takes to resolve it, and to write in its directory.
use lattica_studio.Prelude.{
  ◌≡◌, refl, ◌∙◌, some, false, not, inl, inr, length, ◌==◌, ◌||◌, Option-cases, Bool-cases,
}
use lattica_studio.Prelude.Dict.{list_eq, get, insert, get-insert, beq_refl}
use lattica_studio.Result.{ok}
use lattica_studio.Storage.{Folder, Name, KeyFolder}
use lattica_studio.Storage.Load.{strip, all_hex, resolve_current_bundle}

-- "current" names `name`, whose directory holds `files`.
pub record IsCurrent (w : KeyFolder) (name : Name) (files : Folder) : Type 0 where
  pub written : Name
  pub is_written : w.current ≡ some written
  pub stripped : strip written ≡ name
  pub checked : (not (length name == 32) || not (all_hex name)) ≡ false
  pub files_there : get name w.revisions ≡ some files

pub resolve-IsCurrent :
    (w : KeyFolder) (name : Name) (files : Folder)
    → resolve_current_bundle w ≡ ok (name, files)
    → IsCurrent w name files
unfolding resolve_current_bundle
resolve-IsCurrent w name files h = elim (Option-cases w.current) [
  | inl e ↦ cc (rw e at h)
  | inr (written, e) ↦
      elim (Bool-cases (not (length (strip written) == 32) || not (all_hex (strip written)))) [
        | inl bad ↦ cc (rw (e, bad) at h)
        | inr good ↦ elim (Option-cases (get (strip written) w.revisions)) [
          | inl e2 ↦ cc (rw (e, good, e2) at h)
          | inr (found, e2) ↦
              let h2 = rw (e, good, e2) at h in
              let e_name : strip written ≡ name = cc h2 in
              let e_files : found ≡ files = cc h2 in
              record {
                written = written;
                is_written = e;
                stripped = e_name;
                checked = rw e_name at good;
                files_there = rw (e_name, e_files) at e2;
              }
        ]
      ]
]

pub IsCurrent-resolve :
    (w : KeyFolder) (name : Name) (files : Folder)
    → IsCurrent w name files
    → resolve_current_bundle w ≡ ok (name, files)
unfolding resolve_current_bundle
IsCurrent-resolve w name files is =
    let e = is.is_written in
    let s = is.stripped in let c = is.checked in let f = is.files_there in rw (e, s, c, f)

pub IsCurrent-insert :
    (w : KeyFolder) (name : Name) (files files' : Folder)
    → IsCurrent w name files
    → IsCurrent (record w { revisions = insert name files' w.revisions }) name files'
IsCurrent-insert w name files files' is = record {
  written = is.written;
  is_written = is.is_written;
  stripped = is.stripped;
  checked = is.checked;
  files_there = get-insert name name files' w.revisions ∙ rw (beq_refl name) refl;
}
