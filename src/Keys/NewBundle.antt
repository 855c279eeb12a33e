-- ===== src/Keys/NewBundle.antt =====
-- A save in the world of KeysAPI keeps it registered.
use mathlib.Core.Path.{subst}
use lattica_studio.Prelude.{◌≡◌, sym, ap, ◌∙◌, none, true, false, inl, inr, length, Bool-cases}
use lattica_studio.Prelude.Dict.{string_eq, list_eq, get}
use lattica_studio.Result.{ok}
use lattica_studio.Effects.Runs.{Runs-implies}
use lattica_studio.Credentials.{TokenIdentity, make_identity, Bytes, is_empty, QueryKey, make_key}
use lattica_studio.Storage.{Name, KeyFolder}
use lattica_studio.Storage.Load.{StoredKey, strip, all_hex, resolve_current_bundle}
use lattica_studio.Storage.Save.{staging, save_key_bundle}
use lattica_studio.Storage.Views.{
  strip-hex, IsOther, complete, IsPending, load_folder-complete, complete-IsPending,
}
use lattica_studio.Storage.Current.{resolve-IsCurrent}
use lattica_studio.Storage.Stages.{IsNew, IsDamaged, Seen}
use lattica_studio.Storage.Crash.{Runs-save}
use lattica_studio.Keys.{World, on_folder}
use lattica_studio.Keys.Registered.{
  IsRegistered, AnyEvent, Stays, IsStored, Runs-on_folder, pending-IsRegistered,
}

-- A new revision's name: 32 hexadecimal digits that no directory and no "current" has.
pub record IsFreshName (w : KeyFolder) (revision : Name) : Type 0 where
  pub other : IsOther revision w
  pub no_revision : get revision w.revisions ≡ none
  pub no_staging : get (staging revision) w.revisions ≡ none
  pub long : length revision ≡ 32
  pub hex : all_hex revision ≡ true

module _ (identity : TokenIdentity) (key : QueryKey) (evaluation_key : Bytes) (revision : Name)
    (w : World) (r : IsRegistered w) where
  abbrev pub Saved : StoredKey → World → Type 0
  Saved stored w' =
      IsRegistered w' × IsStored stored (complete identity key evaluation_key false) w'

  pending_same :
      (w' : World)
      → resolve_current_bundle w'.folder ≡ ok (revision, complete identity key evaluation_key false)
      → IsRegistered w'
  pending_same w' e = pending-IsRegistered identity w' λ name files e2.
      let same : complete identity key evaluation_key false ≡ files = cc (e, e2) in
      subst (IsPending identity) same (complete-IsPending identity key evaluation_key)

  module _ (new : IsNew w.folder identity key evaluation_key revision) where
    Seen-IsRegistered :
        (f : KeyFolder)
        → Seen AnyEvent
            (IsDamaged identity revision)
            w.folder
            identity
            key
            evaluation_key
            revision
            new
            f
        → IsRegistered (record w { folder = f })
    Seen-IsRegistered f (inl e) = record {
      is_given = λ name files stored bytes e2. r.is_given name files stored bytes (sym e ∙ e2);
    }
    Seen-IsRegistered f (inr (inl e)) = pending_same (record w { folder = f }) e
    Seen-IsRegistered f (inr (inr damaged)) =
        pending-IsRegistered identity (record w { folder = f })
          λ name files e.
            let is = resolve-IsCurrent f name files e in
            let at : is.written ≡ revision = cc (is.is_written, damaged.named) in
            let here : name ≡ revision =
              sym is.stripped ∙ ap strip at ∙ strip-hex revision new.hex in
            damaged.pending files (rw here at is.files_there)

    Runs-save_new : Stays Saved (on_folder (save_key_bundle identity key evaluation_key revision)) w
    Runs-save_new = Runs-on_folder (
        Runs-implies
          (Runs-save AnyEvent (IsDamaged identity revision) w.folder identity key evaluation_key
            revision new (λ e f m d. d))
          Seen-IsRegistered (λ e f raised. Seen-IsRegistered f raised.1)
          (λ stored f (e, e2).
            let loads = load_folder-complete identity key evaluation_key false revision new.made in
            subst (λ s. Saved s (record w { folder = f })) (sym e)
              (pending_same (record w { folder = f }) e2, record { resolves = e2; loads = loads })))

  pub Runs-save_any :
      IsFreshName w.folder revision
      → make_identity identity.id identity.name ≡ ok identity
      → make_key key.context key.secret_key key.client_model ≡ ok key
      → Stays Saved (on_folder (save_key_bundle identity key evaluation_key revision)) w
  unfolding save_key_bundle on_folder
  Runs-save_any fresh made key_made = elim (Bool-cases (is_empty evaluation_key)) [
    | inl none_given ↦ record { at = λ plan all. rw none_given (r, all) }
    | inr given ↦ Runs-save_new (record {
      other = fresh.other;
      no_revision = fresh.no_revision;
      no_staging = fresh.no_staging;
      long = fresh.long;
      hex = fresh.hex;
      made = record { token_made = made; key_made = key_made; evaluation_key_made = given };
    })
  ]
