-- ===== src/Workers/BuildValidate.antt =====
-- workers/build.processor.ts: the job that checks an uploaded build.
pub mod Bytes
pub mod Settles
pub mod Verdict
use orbitplay_api.Prelude.{
  ℕ, ◌+◌, ◌-◌, Bool, true, false, not, ◌&&◌, ◌||◌, String, Option, none, some, List, [], ◌∷◌, ◌++◌,
  all, any, find, get, update, map, length, take, leb, ltb, option_map, ◌==◌, if◌then◌else◌,
}
use orbitplay_api.Uuid.{units_eq}
use orbitplay_api.Errors.{error}
use orbitplay_api.Exec.{Exec, fail, gets, modify, ◌>>=◌, ◌>>◌}
use orbitplay_api.Schema.Enums.{BuildStatus, BuildStepKey, ProcessingStatus}
use orbitplay_api.Schema.Rows.{BuildRow, BuildStepRow}
use orbitplay_api.World.{World}

abbrev pub Units : Type 0
Units = List ℕ

-- What the job takes from elsewhere: the stream of an object's bytes in chunks (none where reading
-- fails), SHA-256 in hexadecimal, and the text functions of the language.
pub record Deps : Type 0 where
  pub get_object_stream : ℕ → Option (List (List ℕ))
  pub sha256 : List ℕ → Units
  pub to_lower : Units → Units
  pub trim : Units → Units
  pub malware_scan_bypass : Bool

abbrev pub head_bytes : ℕ
head_bytes = 8

-- apk, ipa, zip, exe, msi, deb, appimage, pkg, gz and tgz
abbrev pub format_signatures : List (Units × List ℕ)
format_signatures =
    (97 ∷ 112 ∷ 107 ∷ [], 80 ∷ 75 ∷ 3 ∷ 4 ∷ [])
    ∷ (105 ∷ 112 ∷ 97 ∷ [], 80 ∷ 75 ∷ 3 ∷ 4 ∷ [])
    ∷ (122 ∷ 105 ∷ 112 ∷ [], 80 ∷ 75 ∷ 3 ∷ 4 ∷ [])
    ∷ (101 ∷ 120 ∷ 101 ∷ [], 77 ∷ 90 ∷ [])
    ∷ (109 ∷ 115 ∷ 105 ∷ [], 208 ∷ 207 ∷ 17 ∷ 224 ∷ 161 ∷ 177 ∷ 26 ∷ 225 ∷ [])
    ∷ (100 ∷ 101 ∷ 98 ∷ [], 33 ∷ 60 ∷ 97 ∷ 114 ∷ 99 ∷ 104 ∷ 62 ∷ [])
    ∷ (97 ∷ 112 ∷ 112 ∷ 105 ∷ 109 ∷ 97 ∷ 103 ∷ 101 ∷ [], 127 ∷ 69 ∷ 76 ∷ 70 ∷ [])
    ∷ (112 ∷ 107 ∷ 103 ∷ [], 120 ∷ 97 ∷ 114 ∷ 33 ∷ [])
    ∷ (103 ∷ 122 ∷ [], 31 ∷ 139 ∷ [])
    ∷ (116 ∷ 103 ∷ 122 ∷ [], 31 ∷ 139 ∷ [])
    ∷ []

-- What `FORMAT_SIGNATURES[ext]` is: undefined, bytes, or what the table inherits, of which only
-- `constructor` is an extension.
pub data Signature : Type 0 where
  unknown inherited : Signature
  bytes : List ℕ → Signature

abbrev pub listed : Option (Units × List ℕ) → Signature
listed none = unknown
listed (some r) = bytes r.1

-- 'constructor'
abbrev pub is_inherited : Units → Bool
is_inherited e = units_eq e (99 ∷ 111 ∷ 110 ∷ 115 ∷ 116 ∷ 114 ∷ 117 ∷ 99 ∷ 116 ∷ 111 ∷ 114 ∷ [])

unfoldable pub signature_of : Option Units → Signature
signature_of none = unknown
signature_of (some e) =
    if is_inherited e then inherited else listed (find (λ r. units_eq e r.0) format_signatures)

-- `[a-z0-9]`, in either case
abbrev pub is_alphanumeric : ℕ → Bool
is_alphanumeric c = (leb 48 c && leb c 57) || ((leb 65 c && leb c 90) || (leb 97 c && leb c 122))

-- `/\.([a-z0-9]+)$/i`, the last dot with what follows it
abbrev pub is_extension : Units → Bool
is_extension [] = false
is_extension (c ∷ cs) = all is_alphanumeric (c ∷ cs)

abbrev pub match_extension : Units → Option Units
match_extension [] = none
match_extension (c ∷ cs) =
    let later = match_extension cs in if (c == 46) && is_extension cs then some cs else later

-- `extensionOf`
unfoldable pub extension_of : Deps → Units → Option Units
extension_of deps file_name = option_map deps.to_lower (match_extension (deps.trim file_name))

-- The loop of `hashObject` over the chunks, from `headLen`: the leading bytes.
unfoldable pub head_chunks : ℕ → List (List ℕ) → List ℕ
head_chunks head_len [] = []
head_chunks head_len (c ∷ cs) =
    if ltb head_len head_bytes
    then take (head_bytes - head_len) c ++ head_chunks (head_len + length c) cs
    else head_chunks head_len cs

abbrev pub concat : List (List ℕ) → List ℕ
concat [] = []
concat (c ∷ cs) = c ++ concat cs

-- `hashObject`: the hash of every byte, and the leading bytes.
unfoldable pub hash_object : Deps → ℕ → Option (Units × List ℕ)
hash_object deps key =
    option_map (λ cs. (deps.sha256 (concat cs), head_chunks 0 cs)) (deps.get_object_stream key)

abbrev pub same_step_key : BuildStepKey → BuildStepKey → Bool
same_step_key BuildStepKey.checksum BuildStepKey.checksum = true
same_step_key BuildStepKey.malware_scan BuildStepKey.malware_scan = true
same_step_key BuildStepKey.metadata BuildStepKey.metadata = true
same_step_key BuildStepKey.plugin_manifest BuildStepKey.plugin_manifest = true
same_step_key _ _ = false

abbrev pub step_row : ℕ → ℕ → BuildStepKey → ProcessingStatus → BuildStepRow → BuildStepRow
step_row now id key status s =
    if (s.build_id == id) && same_step_key s.key key
    then record s { status = status; finished_at = some now }
    else s

-- `setStep`
unfoldable pub set_step : ℕ → ℕ → BuildStepKey → ProcessingStatus → Exec World (Unit {0})
set_step now id key status = modify (λ w. record w {
  db = record w.db { build_steps = map (step_row now id key status) w.build_steps };
})

-- `db.update(builds).set(…).where(eq(builds.id, id))`
unfoldable pub update_build : ℕ → (BuildRow → BuildRow) → Exec World (Unit {0})
update_build id f =
    modify (λ w. record w { db = record w.db { builds = update BuildRow.id id f w.builds } })

-- `build.checksum && build.checksum.toLowerCase() !== hashed.sha256.toLowerCase()`
abbrev pub differs : Deps → Option Units → Units → Bool
differs deps none sha = false
differs deps (some []) sha = false
differs deps (some (c ∷ cs)) sha = not (units_eq (deps.to_lower (c ∷ cs)) (deps.to_lower sha))

-- `storage.stat(key)` finds the object.
abbrev pub is_stored : ℕ → World → Bool
is_stored key w = any (λ o. o.0 == key) w.objects

module _ (now : ℕ) (id : ℕ) where
  -- `fail`
  unfoldable pub fail_step : BuildStepKey → String → Exec World (Unit {0})
  fail_step key reason = do
    set_step now id key ProcessingStatus.failed
    update_build id (λ b. record b { status = BuildStatus.failed; failure_reason = some reason })

  -- From `deps.malwareScanBypass`.
  unfoldable pub scan : Bool → Exec World (Unit {0})
  scan true = do
    set_step now id BuildStepKey.malware_scan ProcessingStatus.ready
    update_build id (λ b. record b { status = BuildStatus.validated; failure_reason = none })
  scan false =
      fail_step BuildStepKey.malware_scan
        "Verificação de malware indisponível: nenhum scanner integrado ainda"

  abbrev pub unrecognized : Exec World (Unit {0})
  unrecognized =
      fail_step BuildStepKey.metadata
        "Formato do arquivo não reconhecido ou não corresponde à extensão declarada"

  -- From the bypass, the leading bytes and the signature. `Buffer.from` throws on what is no array.
  unfoldable pub check_format : Bool → List ℕ → Signature → Exec World (Unit {0})
  check_format bypass head unknown = unrecognized
  check_format bypass head inherited = fail (error "ERR_INVALID_ARG_TYPE")
  check_format bypass head (bytes s) =
      if units_eq (take (length s) head) s
      then (do set_step now id BuildStepKey.metadata ProcessingStatus.ready; scan bypass)
      else unrecognized

  -- From what `hashObject` gave; the text of a reading error is left out of the reason.
  unfoldable pub check_object : Deps → BuildRow → Option (Units × List ℕ) → Exec World (Unit {0})
  check_object deps b none = fail_step BuildStepKey.checksum "Falha ao ler objeto para checksum"
  check_object deps b (some hashed) =
      if differs deps b.checksum hashed.0
      then fail_step BuildStepKey.checksum
          "Checksum declarado não confere com o checksum calculado no servidor"
      else (do
        set_step now id BuildStepKey.checksum ProcessingStatus.ready
        update_build id (λ r. record r { checksum = some hashed.0 })
        check_format deps.malware_scan_bypass hashed.1
            (signature_of (extension_of deps b.file_name)))

  abbrev pub check_stored : Deps → BuildRow → Bool → Exec World (Unit {0})
  check_stored deps b true = check_object deps b (hash_object deps b.storage_key)
  check_stored deps b false = fail_step BuildStepKey.checksum "Arquivo não encontrado no storage"

  abbrev pub check_build : Deps → Option BuildRow → Exec World (Unit {0})
  check_build deps none = fail (error "build not found")
  check_build deps (some b) = gets (is_stored b.storage_key) >>= check_stored deps b

  -- `processBuildValidate`
  unfoldable pub process_build_validate : Deps → Exec World (Unit {0})
  process_build_validate deps = gets (λ w. get BuildRow.id id w.builds) >>= check_build deps
