-- ===== src/Examples/Builds.antt =====
-- A run of the build job: an archive of five bytes in two chunks, where the scan may be skipped.
use orbitplay_api.Prelude.{◌≡◌, refl, true, false, some, [], ◌∷◌, option_map, get}
use orbitplay_api.Errors.{ok}
use orbitplay_api.Schema.Enums.{BuildStatus}
use orbitplay_api.Schema.Rows.{BuildRow}
use orbitplay_api.World.{World}
use orbitplay_api.Workers.BuildValidate.{Deps, extension_of, signature_of, process_build_validate}
use orbitplay_api.Workers.BuildValidate.Settles.{has_inherited_extension}
use orbitplay_api.Workers.BuildValidate.Verdict.{build_verdict}
use orbitplay_api.Examples.{open_test, game_build, world_of}

abbrev archive_deps : Deps
archive_deps = record {
  get_object_stream = λ key. some ((80 ∷ 75 ∷ 3 ∷ []) ∷ (4 ∷ 1 ∷ []) ∷ []);
  sha256 = λ content. 48 ∷ [];
  to_lower = λ s. s;
  trim = λ s. s;
  malware_scan_bypass = true;
}

abbrev uploaded_build : BuildRow
uploaded_build = record game_build { status = BuildStatus.processing }

abbrev uploaded_world : World
uploaded_world = record (world_of open_test) {
  db = record (world_of open_test).db { builds = uploaded_build ∷ [] };
  objects = (77, 5) ∷ [];
}

found_lem : get BuildRow.id 31 uploaded_world.builds ≡ some uploaded_build
unfolding get
found_lem = refl

extension_lem : has_inherited_extension (extension_of archive_deps uploaded_build.file_name) ≡ false
unfolding extension_of
extension_lem = refl

build_verdict_example :
    ((process_build_validate 60000 31 archive_deps uploaded_world).0 ≡ ok tt)
    × (option_map BuildRow.status (
          get BuildRow.id 31 (process_build_validate 60000 31 archive_deps uploaded_world).1.builds)
        ≡ some BuildStatus.validated)
unfolding extension_of signature_of
build_verdict_example =
    build_verdict archive_deps 60000 31 uploaded_world uploaded_build found_lem extension_lem
