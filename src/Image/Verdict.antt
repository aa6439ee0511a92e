-- ===== src/Image/Verdict.antt =====
-- `main` of sw/linux/check_initramfs.py, and the record of hashes that it writes and compares.
use koti.Base.{ℕ, Option, none, some, List, [], ◌∷◌, ◌++◌, if◌then◌else◌, ◌>>=◌}
use koti.Base.Text.{Text, lit, text_eq}
use koti.Cpio.Archive.{
  Member, Archive, members, endless, ran_off, bad_magic, bad_header, cut_short, read_cpio,
}
use koti.Image.Problem.{Problem, File, Host, Provenance, no_provenance, wrong_hash}
use koti.Image.Members.{
  size_problems, required_members, required_problems, on_each, marker_from_tb, marker_problems,
  init_problems, binary_problems, overlay_problems,
}
use koti.Image.Scripts.{interface_problems, getty_problems, shell_problems}
use koti.Image.Sends.{newline_problems, echo_problems}

-- `f` on each file, in order.
unfoldable pub gather {ℓ} : {A : Type ℓ} → (A → List Problem) → List A → List Problem
gather f [] = []
gather f (x ∷ xs) = f x ++ gather f xs

unfoldable pub hash_problem : Option Text → Text → Text → List Problem
unfolding text_eq
hash_problem none actual what = wrong_hash what ∷ []
hash_problem (some want) actual what = if text_eq want actual then [] else wrong_hash what ∷ []

unfoldable pub provenance_problems : Host → List ℕ → Option Provenance → List Problem
unfolding hash_problem
provenance_problems host blob none = no_provenance ∷ []
provenance_problems host blob (some rec) =
    hash_problem rec.cpio_sha256 (host.sha blob) (lit "cpio_sha256")
    ++ hash_problem rec.fragment_sha256 (host.sha host.fragment) (lit "fragment_sha256")

-- What `write_provenance` records of the archive and the fragment; its other entries are not read back.
unfoldable pub write_provenance : Host → List ℕ → Provenance
write_provenance host blob = record {
  cpio_sha256 = some (host.sha blob);
  fragment_sha256 = some (host.sha host.fragment);
}

-- The list `bad` in its order, of the two sections that ask for kinds of members and of the others.
unfoldable pub all_problems :
    Host → Text → List File → List Member → List ℕ → List Problem → List Problem → List Problem
unfolding gather size_problems marker_problems init_problems interface_problems getty_problems
    overlay_problems shell_problems newline_problems echo_problems provenance_problems
all_problems host marker files ms blob absent binaries =
    size_problems blob
    ++ (absent
        ++ (marker_problems marker ms
            ++ (init_problems ms
                ++ (binaries
                    ++ (interface_problems ms
                        ++ (getty_problems ms
                            ++ (gather (overlay_problems ms) files
                                ++ (gather (shell_problems host.sh) files
                                    ++ (gather newline_problems files
                                        ++ (gather echo_problems files
                                            ++ provenance_problems host blob
                                                host.provenance))))))))))

-- How the program ends: with an exit code, with `sys.exit` and a message, which is code 1, with a
-- Python exception, or never.
pub data Exit : Type 0 where
  returns : ℕ → Exit
  dies : Exit
  raises : Exit
  hangs : Exit

unfoldable pub verdict : List Problem → Exit
verdict [] = returns 0
verdict (p ∷ bad) = returns 1

unfoldable pub check_members : Host → List Member → List ℕ → Exit
unfolding on_each required_problems binary_problems marker_from_tb verdict all_problems
check_members host ms blob = elim (on_each (required_problems ms) required_members) [
  | none ↦ raises
  | some absent ↦ elim (host.tb_boot >>= marker_from_tb) [
    | none ↦ dies
    | some marker ↦ elim (on_each binary_problems ms) [
      | none ↦ raises
      | some binaries ↦ elim host.overlay [
        | none ↦ dies
        | some files ↦ verdict (all_problems host marker files ms blob absent binaries)
      ]
    ]
  ]
]

-- `main` without its option, on the bytes of the archive. The members are read first.
unfoldable pub judge_archive : Host → List ℕ → Archive → Exit
unfolding check_members
judge_archive host blob (members ms) = check_members host ms blob
judge_archive host blob endless = hangs
judge_archive host blob ran_off = dies
judge_archive host blob bad_magic = dies
judge_archive host blob bad_header = dies
judge_archive host blob cut_short = dies

unfoldable pub check_image : Host → List ℕ → Exit
unfolding judge_archive read_cpio
check_image host blob = judge_archive host blob (read_cpio blob)
