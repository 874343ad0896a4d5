-- ===== src/Tests/Handles.antt =====
-- Runs of the models of src/fh.c, src/locate.c and src/error.c.
use nfsrods.Prelude.{◌≤◌, ◌≡◌, refl, inl, inr, true, false, [], ◌∷◌, none, some, bytes, arith}
use nfsrods.Errno.{enotdir}
use nfsrods.Status.{is_failure}
use nfsrods.Error.Laws.{Call, translate, translate-is_failure}
use nfsrods.Fh.Handles.{
  Handle, Special, fh_hash, fh_comp_raw, comp_inos, prefixes, hashes, fh_extend, extend_base,
  fh_length, fh_valid, nfh_valid, on_wire,
}
use nfsrods.Fh.Resolve.{Found, Resolved, visit, scan, fh_rec, fh_decomp_raw}
use nfsrods.Fh.Resolve.Sound.{Leads, fh_decomp_raw-Leads}
use nfsrods.Fh.Bounds.{IsHandle, fh_extend-IsHandle}
use nfsrods.Fh.Roundtrip.{decomp-comp, Walk}
use nfsrods.Locate.{locate_pfx, locate_scan, locate_file, mount_point}
use nfsrods.Locate.Laws.{IsObject, locate_file-IsObject, locate_pfx-fuel}
use nfsrods.Tests.Samples.{small_fs, dir_stat, file_stat, file_a, handle_a, names_of_root}

abbrev found_a : Found
found_a = record { path = file_a; stat = file_stat }

fh_decomp_raw-Leads_example : Leads small_fs handle_a dir_stat found_a
unfolding fh_decomp_raw fh_rec scan visit fh_hash fh_valid
fh_decomp_raw-Leads_example = fh_decomp_raw-Leads small_fs handle_a dir_stat found_a refl refl

abbrev extended : Handle
extended = record { dev = 1; ino = 9; gen = 9; pwhash = 3; inos = fh_hash 5 ∷ (fh_hash 9 ∷ []) }

handle_a-IsHandle : IsHandle handle_a
unfolding fh_hash
handle_a-IsHandle = record { fits = omega arith; hashes_are_bytes = (omega arith, tt) }

fh_extend-IsHandle_example :
    IsHandle extended × (fh_length extended ≤ 64) × (nfh_valid (on_wire extended) ≡ true)
unfolding fh_extend extend_base
fh_extend-IsHandle_example =
    fh_extend-IsHandle small_fs (λ fsid. none) 3 handle_a 1 9 9 extended handle_a-IsHandle refl

locate_file-IsObject_example :
    IsObject small_fs 1 5 (record { path = bytes "//a"; stat = file_stat })
unfolding locate_file mount_point locate_pfx locate_scan
locate_file-IsObject_example = locate_file-IsObject small_fs 1 5 true (some (bytes "/" ∷ [])) _ refl

locate_pfx-fuel_example :
    locate_pfx small_fs 1 5 1024 (bytes "/") ≡ locate_pfx small_fs 1 5 1023 (bytes "/")
locate_pfx-fuel_example = locate_pfx-fuel small_fs 1 5 1023 (bytes "/") (omega arith)

translate-is_failure_example : is_failure (translate Call.rename enotdir) ≡ true
translate-is_failure_example = translate-is_failure Call.rename enotdir

names-Walk : Walk small_fs [] (bytes "a" ∷ [])
names-Walk = ((names_of_root, refl, inr (inr (inl refl))), refl, refl, omega arith, refl, tt)

decomp-comp_example :
    let fh = fh_comp_raw small_fs Special.ordinary file_a false in
    (f : Found) × (fh_decomp_raw small_fs fh dir_stat ≡ Resolved.found f)
    × Leads small_fs fh dir_stat f
unfolding fh_comp_raw comp_inos fh_valid prefixes hashes
decomp-comp_example =
    decomp-comp small_fs dir_stat (bytes "a") [] false file_stat (λ p. refl) names-Walk refl
      (omega arith) refl
