-- ===== src/Workers/BuildValidate/Settles.antt =====
-- How each part of the job leaves a build.
use orbitplay_api.Prelude.{
  ℕ, ◌≡◌, ◌≢◌, refl, ◌∙◌, ap, subst, Bool, true, false, not, ◌&&◌, String, Option, none, some, List,
  get, get-update, length, take, option_map, ==_refl, ◌==◌, if◌then◌else◌,
}
use orbitplay_api.Uuid.{units_eq}
use orbitplay_api.Errors.{Result, ok}
use orbitplay_api.Exec.{◌>>=◌, modify}
use orbitplay_api.Schema.Enums.{BuildStatus, BuildStepKey, ProcessingStatus}
use orbitplay_api.Schema.Rows.{BuildRow}
use orbitplay_api.World.{World}
use orbitplay_api.Workers.BuildValidate.{
  Units, Deps, Signature, unknown, inherited, bytes, is_inherited, signature_of, extension_of,
  listed, concat, set_step, update_build, fail_step, scan, check_format, differs, is_stored,
}
use orbitplay_api.Workers.BuildValidate.Bytes.{begins_with}

abbrev pub has_inherited_extension : Option Units → Bool
has_inherited_extension none = false
has_inherited_extension (some e) = is_inherited e

abbrev pub has_format : Signature → List ℕ → Bool
has_format unknown content = false
has_format inherited content = false
has_format (bytes s) content = begins_with content s

-- What a sound build is, by the whole content of its object.
abbrev pub is_sound : Deps → BuildRow → Option (List (List ℕ)) → Bool
is_sound deps b none = false
is_sound deps b (some cs) =
    not (differs deps b.checksum (deps.sha256 (concat cs)))
    && has_format (signature_of (extension_of deps b.file_name)) (concat cs)

abbrev pub accepts : Deps → World → BuildRow → Bool
accepts deps w b =
    deps.malware_scan_bypass
    && (is_stored b.storage_key w && is_sound deps b (deps.get_object_stream b.storage_key))

-- The job ended well and left the build with the status.
pub record Settles (id : ℕ) (st : BuildStatus) (r : Result (Unit {0}) × World) : Type 0 where
  pub ended : r.0 ≡ ok tt
  pub settled : option_map BuildRow.status (get BuildRow.id id r.1.builds) ≡ some st

pub get-update_build :
    (id : ℕ) (f : BuildRow → BuildRow) (b : BuildRow) (w : World)
    → ((r : BuildRow) → (f r).id ≡ r.id)
    → get BuildRow.id id w.builds ≡ some b
    → get BuildRow.id id (update_build id f w).1.builds ≡ some (f b)
unfolding update_build modify
get-update_build id f b w keeps e = get-update BuildRow.id id id f w.builds keeps ∙ found
  where
    found :
        (if id == id
          then option_map f (get BuildRow.id id w.builds)
          else get BuildRow.id id w.builds)
        ≡ some (f b)
    found = rw (==_refl id) (ap (option_map f) e)

update_build-Settles :
    (id : ℕ) (f : BuildRow → BuildRow) (b : BuildRow) (w : World)
    → ((r : BuildRow) → (f r).id ≡ r.id)
    → get BuildRow.id id w.builds ≡ some b
    → Settles id (f b).status (update_build id f w)
unfolding update_build modify
update_build-Settles id f b w keeps e = record {
  ended = refl;
  settled = ap (option_map BuildRow.status) (get-update_build id f b w keeps e);
}

pub listed_lem : (o : Option (Units × List ℕ)) → listed o ≢ inherited
listed_lem none q = cc
listed_lem (some r) q = cc

module _ (now : ℕ) (id : ℕ) where
  pub fail_step-Settles :
      (key : BuildStepKey) (reason : String) (b : BuildRow) (w : World)
      → get BuildRow.id id w.builds ≡ some b
      → Settles id BuildStatus.failed (fail_step now id key reason w)
  unfolding fail_step set_step ◌>>=◌
  fail_step-Settles key reason b w e =
      update_build-Settles id
        (λ r. record r { status = BuildStatus.failed; failure_reason = some reason }) b
        (set_step now id key ProcessingStatus.failed w).1 (λ r. refl) e

  abbrev pub status_of : Bool → BuildStatus
  status_of sound = if sound then BuildStatus.validated else BuildStatus.failed

  scan-Settles :
      (bypass : Bool) (b : BuildRow) (w : World)
      → get BuildRow.id id w.builds ≡ some b
      → Settles id (status_of bypass) (scan now id bypass w)
  unfolding scan set_step ◌>>=◌
  scan-Settles true b w e =
      update_build-Settles id
        (λ r. record r { status = BuildStatus.validated; failure_reason = none }) b
        (set_step now id BuildStepKey.malware_scan ProcessingStatus.ready w).1 (λ r. refl) e
  scan-Settles false b w e = fail_step-Settles BuildStepKey.malware_scan _ b w e

  check_format-Settles :
      (bypass fits : Bool) (s head : List ℕ) (b : BuildRow) (w : World)
      → units_eq (take (length s) head) s ≡ fits
      → get BuildRow.id id w.builds ≡ some b
      → Settles id (status_of (bypass && fits)) (check_format now id bypass head (bytes s) w)
  unfolding check_format set_step ◌>>=◌
  check_format-Settles true true s head b w f e =
      rw f
        (scan-Settles true b (set_step now id BuildStepKey.metadata ProcessingStatus.ready w).1 e)
  check_format-Settles false true s head b w f e =
      rw f
        (scan-Settles false b (set_step now id BuildStepKey.metadata ProcessingStatus.ready w).1 e)
  check_format-Settles true false s head b w f e =
      rw f (fail_step-Settles BuildStepKey.metadata _ b w e)
  check_format-Settles false false s head b w f e =
      rw f (fail_step-Settles BuildStepKey.metadata _ b w e)

  pub refused : (bypass : Bool) → BuildStatus.failed ≡ status_of (bypass && false)
  refused true = refl
  refused false = refl

  pub any_format-Settles :
      (bypass : Bool) (g : Signature) (content head : List ℕ) (b : BuildRow) (w : World)
      → g ≢ inherited
      → ((s : List ℕ) → g ≡ bytes s → units_eq (take (length s) head) s ≡ begins_with content s)
      → get BuildRow.id id w.builds ≡ some b
      → Settles id
          (status_of (bypass && has_format g content))
          (check_format now id bypass head g w)
  unfolding check_format
  any_format-Settles bypass unknown content head b w n f e =
      subst (λ st. Settles id st (check_format now id bypass head unknown w)) (refused bypass)
        (fail_step-Settles BuildStepKey.metadata _ b w e)
  any_format-Settles bypass inherited content head b w n f e = elim (n refl) [ ]
  any_format-Settles bypass (bytes s) content head b w n f e =
      check_format-Settles bypass (begins_with content s) s head b w (f s refl) e
