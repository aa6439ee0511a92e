-- ===== src/Esp/Fetch.antt =====
-- What `get` of sw/linux/rootfs-overlay/usr/bin/koti-net has the far end execute in one line, the program
-- `c1`: repair the resolver, dial, ask, collect the page and print it between two markers.
use koti.Base.{
  ℕ, zero, suc, none, some, ltb, List, [], ◌∷◌, ◌++◌, length, get_elem?, take, drop, if◌then◌else◌,
}
use koti.Base.Text.{Text, lit}
use koti.Base.Strings.{int, until}
use koti.Esp.Mock.{
  Answer, raises, nothing, truth, number, config, address, socket_ref, bytes, Exc, index_error,
  value_error, no_resolver,
}
use koti.Esp.Program.{
  Program, finish, fail, ask, print, write, get_config, put_config, lookup_host, make_socket,
  set_timeout, dial, transmit, receive, shut,
}

-- A call made for its effect; an exception ends the line.
abbrev pub after : {S : Type 0} → Answer → S → Program S → Program S
after (raises e) s p = fail s e
after nothing s p = p
after (truth b) s p = p
after (number n) s p = p
after (config t) s p = p
after (address a port) s p = p
after (socket_ref i) s p = p
after (bytes d) s p = p

-- An answer of another kind than the call gives.
abbrev pub type_error : Exc
type_error = record { class = lit "TypeError"; message = [] }

abbrev failure : Answer → Exc
failure (raises e) = e
failure _ = type_error

abbrev pub want_config : {S : Type 0} → Answer → S → (List Text → Program S) → Program S
want_config (config g) s k = k g
want_config a s k = fail s (failure a)

abbrev pub want_socket : {S : Type 0} → Answer → S → (ℕ → Program S) → Program S
want_socket (socket_ref i) s k = k i
want_socket a s k = fail s (failure a)

abbrev pub want_bytes : {S : Type 0} → Answer → S → (List ℕ → Program S) → Program S
want_bytes (bytes d) s k = k d
want_bytes a s k = fail s (failure a)

-- `dial` takes the address from `getaddrinfo`, which the far end's `connect` does not look at.
abbrev pub want_address : {S : Type 0} → Answer → S → (Text → Program S) → Program S
want_address (address a port) s k = k a
want_address a s k = fail s (failure a)

abbrev pub limit_bytes : ℕ
limit_bytes = 200000

module _ {S : Type 0} where
  -- `n=int(g[3].split('.')[0])`, and the router as resolver where that is no resolver.
  unfoldable pub repair : List Text → S → Program S → Program S
  repair g s p = elim (get_elem? g 3) [
    | none ↦ fail s index_error
    | some d ↦ elim (int (until b'.' d)) [
      | none ↦ fail s (value_error (until b'.' d))
      | some n ↦
          if no_resolver n
          then ask (put_config (take 3 g ++ take 1 (drop 2 g))) (λ r. after r s p)
          else p
    ]
  ]

  -- `while len(b)<200000: d=s.recv(256); if not d: break; b+=d`. A round adds a byte at least, so more
  -- fuel than the page has bytes is enough.
  unfoldable pub collect : ℕ → ℕ → List ℕ → S → (List ℕ → Program S) → Program S
  collect zero i b s next = next b
  collect (suc fuel) i b s next =
      if ltb (length b) limit_bytes
      then ask (receive i 256) (λ a.
        want_bytes a s (λ d. elim d [ [] ↦ next b | c ∷ r ↦ collect fuel i (b ++ c ∷ r) s next ]))
      else next b

  -- `print('zz', name)`.
  abbrev marker : Text → S → Program S → Program S
  marker name s p = ask (print (lit "zz" ∷ name ∷ []) (lit " ") (lit "\n")) (λ r. after r s p)

  -- What follows the loop.
  unfoldable pub show_marked : ℕ → S → List ℕ → Program S
  show_marked i s b = marker (lit "KOTI-BEGIN") s (
      ask (write b) (λ r. after r s (
        ask (print [] (lit " ") (lit "\n"))
          (λ q. after q s (marker (lit "KOTI-END") s (ask (shut i) (λ u. after u s (finish s))))))))

  unfoldable pub show_page : ℕ → S → List ℕ → Program S
  unfolding show_marked
  show_page i s b =
      if ltb (length b) limit_bytes
      then show_marked i s b
      else marker (lit "KOTI-CUT") s (show_marked i s b)

  -- From the request on; from the name on; from the socket on.
  unfoldable pub ask_page : ℕ → List ℕ → ℕ → S → Program S
  unfolding collect show_page
  ask_page fuel request i s =
      marker (lit "KOTI-CN") s
        (ask (transmit i request) (λ r. after r s (collect fuel i [] s (show_page i s))))

  unfoldable pub dial_page : ℕ → Text → List ℕ → ℕ → S → Program S
  unfolding ask_page
  dial_page fuel host request i s =
      ask (lookup_host host 80)
        (λ a. want_address a s (λ _. ask (dial i) (λ c. after c s (ask_page fuel request i s))))

  unfoldable pub open_page : ℕ → Text → List ℕ → S → Program S
  unfolding dial_page
  open_page fuel host request s = ask make_socket (λ o.
      want_socket o s
        (λ i. ask (set_timeout i (some 20)) (λ t. after t s (dial_page fuel host request i s))))

  -- `exec(c1)`, for a host and a request.
  unfoldable pub fetch : ℕ → Text → List ℕ → S → Program S
  unfolding repair open_page
  fetch fuel host request s =
      ask get_config (λ g. want_config g s (λ cfg. repair cfg s (open_page fuel host request s)))
