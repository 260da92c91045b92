-- ===== src/Workers/BuildValidate/Verdict.antt =====
-- What the job decides about a build.
use orbitplay_api.Prelude.{
  ℕ, ◌≡◌, ◌≢◌, refl, sym, subst, Bool, true, false, not, ◌&&◌, Option, none, some, List, find, get,
  length, take, option_map, if◌then◌else◌,
}
use orbitplay_api.Uuid.{units_eq}
use orbitplay_api.Errors.{ok}
use orbitplay_api.Exec.{◌>>=◌, ◌>>◌}
use orbitplay_api.Schema.Enums.{BuildStatus, BuildStepKey, ProcessingStatus}
use orbitplay_api.Schema.Rows.{BuildRow}
use orbitplay_api.World.{World}
use orbitplay_api.Workers.BuildValidate.{
  Units, Deps, Signature, inherited, bytes, signature_of, extension_of, head_chunks, listed,
  format_signatures, check_stored, concat, hash_object, set_step, update_build, fail_step,
  check_format, differs, check_object, is_stored, check_build, process_build_validate,
}
use orbitplay_api.Workers.BuildValidate.Bytes.{begins_with, head_begins_with}
use orbitplay_api.Workers.BuildValidate.Settles.{
  Settles, accepts, any_format-Settles, fail_step-Settles, get-update_build, has_format,
  has_inherited_extension, is_sound, listed_lem, refused, status_of,
}

not_inherited : (x : Option Units) → has_inherited_extension x ≡ false → signature_of x ≢ inherited
unfolding signature_of
not_inherited none n q = cc
not_inherited (some e) n q = listed_lem (find (λ r. units_eq e r.0) format_signatures) (
    subst
      (λ b.
        (if b then inherited else listed (find (λ r. units_eq e r.0) format_signatures))
        ≡ inherited)
      n q)

extension_fits :
    (x : Option Units) (cs : List (List ℕ)) (s : List ℕ)
    → has_inherited_extension x ≡ false
    → signature_of x ≡ bytes s
    → units_eq (take (length s) (head_chunks 0 cs)) s ≡ begins_with (concat cs) s
unfolding signature_of
extension_fits none cs s n q = cc
extension_fits (some e) cs s n q = head_begins_with e s cs n q

module _ (deps : Deps) (now : ℕ) (id : ℕ) (b : BuildRow) where
  abbrev hashed : List (List ℕ) → Units × List ℕ
  hashed cs = (deps.sha256 (concat cs), head_chunks 0 cs)

  check_object-Settles :
      (o : Option (List (List ℕ))) (w : World)
      → has_inherited_extension (extension_of deps b.file_name) ≡ false
      → get BuildRow.id id w.builds ≡ some b
      → Settles id
          (status_of now id (deps.malware_scan_bypass && is_sound deps b o))
          (check_object now id deps b (option_map hashed o) w)
  unfolding check_object set_step ◌>>=◌ update_build
  check_object-Settles none w n e =
      subst (λ st. Settles id st (check_object now id deps b none w))
        (refused now id deps.malware_scan_bypass)
        (fail_step-Settles now id BuildStepKey.checksum _ b w e)
  check_object-Settles (some cs) w n e = go (differs deps b.checksum (deps.sha256 (concat cs)))
    where
      format : Signature
      format = signature_of (extension_of deps b.file_name)

      ready : World
      ready = (set_step now id BuildStepKey.checksum ProcessingStatus.ready w).1

      hash_row : BuildRow → BuildRow
      hash_row r = record r { checksum = some (deps.sha256 (concat cs)) }

      go :
          (d : Bool)
          → Settles id
              (status_of now id
                (deps.malware_scan_bypass && (not d && has_format format (concat cs))))
              ((if d
                  then fail_step now id BuildStepKey.checksum
                      "Checksum declarado não confere com o checksum calculado no servidor"
                  else (do
                    set_step now id BuildStepKey.checksum ProcessingStatus.ready
                    update_build id hash_row
                    check_format now id deps.malware_scan_bypass (head_chunks 0 cs) format))
                w)
      go true =
          subst
            (λ st. Settles id st (
              fail_step now id BuildStepKey.checksum
                "Checksum declarado não confere com o checksum calculado no servidor" w))
            (refused now id deps.malware_scan_bypass)
            (fail_step-Settles now id BuildStepKey.checksum _ b w e)
      go false =
          any_format-Settles now id deps.malware_scan_bypass format (concat cs) (head_chunks 0 cs)
            (hash_row b) (update_build id hash_row ready).1
            (not_inherited (extension_of deps b.file_name) n)
            (λ s q. extension_fits (extension_of deps b.file_name) cs s n q)
            (get-update_build id hash_row b ready (λ r. refl) e)

  check_stored-Settles :
      (stored : Bool) (w : World)
      → has_inherited_extension (extension_of deps b.file_name) ≡ false
      → get BuildRow.id id w.builds ≡ some b
      → Settles id
          (status_of now id (
            deps.malware_scan_bypass
            && (stored && is_sound deps b (deps.get_object_stream b.storage_key))))
          (check_stored now id deps b stored w)
  unfolding hash_object
  check_stored-Settles true w n e =
      check_object-Settles (deps.get_object_stream b.storage_key) w n e
  check_stored-Settles false w n e =
      subst (λ st. Settles id st (check_stored now id deps b false w))
        (refused now id deps.malware_scan_bypass)
        (fail_step-Settles now id BuildStepKey.checksum _ b w e)

-- The job always settles a build whose file is not named `….constructor`: the build is validated
-- exactly where the malware scan may be skipped, the object is stored and can be read, the declared
-- checksum, if any, is that of the whole content, and the content begins with the signature of the
-- file's extension; every other build ends as failed.
pub build_verdict :
    (deps : Deps) (now id : ℕ) (w : World) (b : BuildRow)
    → get BuildRow.id id w.builds ≡ some b
    → has_inherited_extension (extension_of deps b.file_name) ≡ false
    → ((process_build_validate now id deps w).0 ≡ ok tt)
      × (option_map BuildRow.status
            (get BuildRow.id id (process_build_validate now id deps w).1.builds)
          ≡ some (if accepts deps w b then BuildStatus.validated else BuildStatus.failed))
unfolding process_build_validate ◌>>=◌
build_verdict deps now id w b e n =
    let s =
      subst
        (λ o.
          Settles id (if accepts deps w b then BuildStatus.validated else BuildStatus.failed)
            (check_build now id deps o w))
        (sym e) (check_stored-Settles deps now id b (is_stored b.storage_key w) w n e) in
    (s.ended, s.settled)
