-- ===== src/Image/Passes.antt =====
-- What `main` of sw/linux/check_initramfs.py shows of an archive that it passes.
use koti.Base.{ℕ, ◌*◌, ◌≤◌, ◌≡◌, some, true, List, length, All, ◌>>=◌}
use koti.Base.Text.{Text, lit}
use koti.Base.Strings.{contains}
use koti.Cpio.Archive.{Member, Archive}
use koti.Image.Problem.{Problem, File, Host}
use koti.Image.Members.{find_member, required_members, marker_from_tb}
use koti.Image.Bootable.{Executes, IsCopied, FitsQueue, Recorded, IsThere}

-- The script that prints the bench's marker has it in its bytes.
abbrev pub HasMarker : Host → List Member → Type 0
HasMarker host ms =
    (marker : Text) × ((host.tb_boot >>= marker_from_tb) ≡ some marker)
    × ((m : Member)
        → find_member (lit "etc/init.d/S99koti") ms ≡ some m
        → contains marker m.body ≡ true)

abbrev pub HasOverlay : Host → List Member → Type 0
HasOverlay host ms =
    (files : List File) × (host.overlay ≡ some files)
    × All (IsCopied ms) files
    × All FitsQueue files

-- What holds of an archive that passes: its size, its members, the marker, the binaries, the overlay's
-- files, and the recorded hashes.
abbrev pub Bootable : Host → List Member → List ℕ → Type 0
Bootable host ms blob =
    (length blob ≤ 2560 * 1024)
    × All (IsThere ms) required_members
    × HasMarker host ms
    × All Executes ms
    × HasOverlay host ms
    × Recorded host blob
