-- ===== src/Esp/Registered.antt =====
-- Which sockets the far end knows: one that is connected stands in `socks`, and so is killed with the
-- others when the interface is set up again.
use koti.Base.{
  ℕ, zero, suc, ◌≡◌, refl, sym, ap, subst, ◌∙◌, ◌≢◌, ◌⊎◌, inl, inr, arith, some, true, false, List,
  [], ◌∷◌, ◌++◌, get_elem?, set, Option-cases,
}
use koti.Esp.Mock.{Sock, new_sock, kill, kill_all}

-- `i in socks`.
abbrev pub Names : ℕ → List ℕ → Type 0
Names i [] = ⊥
Names i (j ∷ socks) = (i ≡ j) ⊎ Names i socks

abbrev pub IsRegistered : List Sock → List ℕ → Type 0
IsRegistered heap socks =
    (i : ℕ) (s : Sock) → get_elem? heap i ≡ some s → s.connected ≡ true → Names i socks

abbrev pub AllDead : List Sock → Type 0
AllDead heap = (i : ℕ) (s : Sock) → get_elem? heap i ≡ some s → s.connected ≡ true → s.dead ≡ true

-- Where a cell of a changed list comes from.
get_elem?-set_inv {ℓ} :
    {A : Type ℓ} (xs : List A) (i j : ℕ) (v : A) {a : A}
    → get_elem? (set xs i v) j ≡ some a
    → ((i ≡ j) × (a ≡ v)) ⊎ ((i ≢ j) × (get_elem? xs j ≡ some a))
get_elem?-set_inv [] i j v h = absurd (cc)
get_elem?-set_inv (x ∷ xs) zero zero v h = inl (refl, cc)
get_elem?-set_inv (x ∷ xs) zero (suc j) v h = inr (λ e. omega arith, h)
get_elem?-set_inv (x ∷ xs) (suc i) zero v h = inr (λ e. omega arith, h)
get_elem?-set_inv (x ∷ xs) (suc i) (suc j) v h = elim (get_elem?-set_inv xs i j v h) [
  | inl p ↦ inl (ap suc p.0, p.1)
  | inr p ↦ inr (λ e. p.0 (omega arith), p.1)
]

get_elem?-snoc_inv {ℓ} :
    {A : Type ℓ} (xs : List A) (x : A) (j : ℕ) {a : A}
    → get_elem? (xs ++ x ∷ []) j ≡ some a
    → (a ≡ x) ⊎ (get_elem? xs j ≡ some a)
get_elem?-snoc_inv [] x zero h = inl (cc)
get_elem?-snoc_inv [] x (suc j) h = absurd (cc)
get_elem?-snoc_inv (y ∷ xs) x zero h = inr h
get_elem?-snoc_inv (y ∷ xs) x (suc j) h = get_elem?-snoc_inv xs x j h

Names-append_left : (i : ℕ) (socks more : List ℕ) → Names i socks → Names i (socks ++ more)
Names-append_left i [] more h = absurd h
Names-append_left i (j ∷ socks) more (inl e) = inl e
Names-append_left i (j ∷ socks) more (inr h) = inr (Names-append_left i socks more h)

Names-append_last : (i : ℕ) (socks : List ℕ) → Names i (socks ++ i ∷ [])
Names-append_last i [] = inl refl
Names-append_last i (j ∷ socks) = inr (Names-append_last i socks)

-- What `kill_all` makes of the socket in place `j`.
record Killed (socks : List ℕ) (heap : List Sock) (j : ℕ) (s : Sock) : Type 0 where
  before : Sock
  was : get_elem? heap j ≡ some before
  same : s.connected ≡ before.connected
  stays : before.dead ≡ true → s.dead ≡ true
  dies : Names j socks → s.dead ≡ true

kill_lem :
    (heap : List Sock) (i j : ℕ) {s : Sock}
    → get_elem? (kill heap i) j ≡ some s
    → Killed (i ∷ []) heap j s
unfolding kill
kill_lem heap i j {s} h = elim (Option-cases (get_elem? heap i)) [
  | inl free ↦
      let at : get_elem? heap j ≡ some s = rw (free, kill) at h in
      record {
        before = s;
        was = at;
        same = refl;
        stays = λ d. d;
        dies = λ n. elim n [ inl e ↦ absurd (cc (at, free, e)) | inr f ↦ absurd f ];
      }
  | inr (old, found) ↦
      elim (get_elem?-set_inv heap i j (record old { dead = true }) (rw (found, kill) at h)) [
        | inl p ↦ record {
          before = old;
          was = (ap (get_elem? heap) (sym p.0)) ∙ found;
          same = ap (λ (t : Sock). t.connected) p.1;
          stays = λ d. ap (λ (t : Sock). t.dead) p.1;
          dies = λ n. ap (λ (t : Sock). t.dead) p.1;
        }
        | inr p ↦ record {
          before = s;
          was = p.1;
          same = refl;
          stays = λ d. d;
          dies = λ n. elim n [ inl e ↦ absurd (p.0 (sym e)) | inr f ↦ absurd f ];
        }
      ]
]

kill_all_lem :
    (socks : List ℕ) (heap : List Sock) (j : ℕ) {s : Sock}
    → get_elem? (kill_all socks heap) j ≡ some s
    → Killed socks heap j s
unfolding kill_all
kill_all_lem [] heap j {s} h = record {
  before = s;
  was = h;
  same = refl;
  stays = λ d. d;
  dies = λ n. absurd n;
}
kill_all_lem (i ∷ socks) heap j h =
    let rest = kill_all_lem socks (kill heap i) j h in
    let one = kill_lem heap i j rest.was in
    record {
      before = one.before;
      was = one.was;
      same = rest.same ∙ one.same;
      stays = λ d. rest.stays (one.stays d);
      dies = λ n. elim n [ inl e ↦ rest.stays (one.dies (inl e)) | inr m ↦ rest.dies m ];
    }

-- Killing what is registered leaves it registered, and leaves no connected socket alive.
pub kill_all-IsRegistered :
    (socks : List ℕ) (heap : List Sock)
    → IsRegistered heap socks
    → IsRegistered (kill_all socks heap) socks
kill_all-IsRegistered socks heap h i s at c =
    let k = kill_all_lem socks heap i at in h i k.before k.was (sym k.same ∙ c)

pub kill_all-AllDead :
    (socks : List ℕ) (heap : List Sock) → IsRegistered heap socks → AllDead (kill_all socks heap)
kill_all-AllDead socks heap h i s at c =
    let k = kill_all_lem socks heap i at in k.dies (h i k.before k.was (sym k.same ∙ c))

-- A socket that is changed but for its connection, and one that is disconnected.
pub set-IsRegistered :
    (heap : List Sock) (socks : List ℕ) (i : ℕ) (old new : Sock)
    → get_elem? heap i ≡ some old
    → (new.connected ≡ old.connected) ⊎ (new.connected ≡ false)
    → IsRegistered heap socks
    → IsRegistered (set heap i new) socks
set-IsRegistered heap socks i old new found change h j s at c =
    elim (get_elem?-set_inv heap i j new at) [
      | inr p ↦ h j s p.1 c
      | inl p ↦
          let on : new.connected ≡ true = sym (ap (λ (t : Sock). t.connected) p.1) ∙ c in
          elim change [
            | inl same ↦ h j old (ap (get_elem? heap) (sym p.0) ∙ found) (sym same ∙ on)
            | inr off ↦ absurd (cc)
          ]
    ]

pub connect-IsRegistered :
    (heap : List Sock) (socks : List ℕ) (i : ℕ) (new : Sock)
    → IsRegistered heap socks
    → IsRegistered (set heap i new) (socks ++ i ∷ [])
connect-IsRegistered heap socks i new h j s at c = elim (get_elem?-set_inv heap i j new at) [
  | inr p ↦ Names-append_left j socks (i ∷ []) (h j s p.1 c)
  | inl p ↦ subst (λ (k : ℕ). Names k (socks ++ i ∷ [])) p.0 (Names-append_last i socks)
]

pub open-IsRegistered :
    (heap : List Sock) (socks : List ℕ)
    → IsRegistered heap socks
    → IsRegistered (heap ++ new_sock ∷ []) socks
open-IsRegistered heap socks h j s at c = elim (get_elem?-snoc_inv heap new_sock j at) [
  | inl e ↦ absurd (cc (ap (λ (t : Sock). t.connected) e))
  | inr old ↦ h j s old c
]
