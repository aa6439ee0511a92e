-- ===== src/Image/Hashes.antt =====
-- The record of hashes of sw/linux/check_initramfs.py, written and compared.
use koti.Base.{ℕ, ◌≡◌, refl, some, List, []}
use koti.Base.Equal.{text_eq_refl}
use koti.Image.Problem.{Host}
use koti.Image.Verdict.{hash_problem, provenance_problems, write_provenance}

-- After `--write-provenance` the next run over the same archive and fragment finds nothing against the
-- hashes.
pub provenance_problems-write_provenance :
    (host : Host) (blob : List ℕ)
    → provenance_problems host blob (some (write_provenance host blob)) ≡ []
unfolding provenance_problems write_provenance hash_problem
provenance_problems-write_provenance host blob =
    rw (text_eq_refl (host.sha blob), text_eq_refl (host.sha host.fragment)) refl
