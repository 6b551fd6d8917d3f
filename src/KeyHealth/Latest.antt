-- ===== src/KeyHealth/Latest.antt =====
-- The flag and the events of the probe.
use wintermute_brain.Prelude.Decimal.{show}
use wintermute_brain.Prelude.Unicode.{byte_len, len_utf8}
use wintermute_brain.Prelude.{
  ℕ, ◌-◌, ◌<◌, ◌≡◌, refl, sym, ap, ◌∙◌, inl, inr, Bool-cases, Bool, true, false, ◌&&◌, ◌||◌, List,
  [], ◌∷◌, ◌++◌, append_assoc, append-nil, Option, none, some, Text, codes, All, ltb, leb, ◌==◌,
  if◌then◌else◌, arith,
}
use wintermute_brain.KeyHealth.{
  KeyHealthResult, ok, auth_error, network_error, is_ok, Response, status, transport_error,
  take_bytes, truncated, network_error_of, check, code_of, KeyStatus, Pass, Probe, checked, pass,
  spawn_background,
}

-- The body is ASCII, if there is one.
abbrev pub HasAsciiBody : Response → Type 0
HasAsciiBody (transport_error e) = Unit
HasAsciiBody (status code none) = Unit
HasAsciiBody (status code (some body)) = All (λ c. c < 128) body

-- What a response says of the key: whether it works, and the code that refuses it.
abbrev pub works : Response → Bool
works (transport_error e) = false
works (status code body) = leb 200 code && leb code 299

abbrev pub refused_with : Response → Option ℕ
refused_with (transport_error e) = none
refused_with (status code body) = if code == 401 || code == 403 then some code else none

-- The events of some passes: one for each publish that succeeds.
pub statuses : List Pass → List KeyStatus
statuses [] = []
statuses (i ∷ is) =
    let rest = statuses is in
    if i.publish_ok
    then record { ok = works i.response; code = refused_with i.response; ts = i.ts } ∷ rest
    else rest

len_utf8-ascii : (c : ℕ) → c < 128 → len_utf8 c ≡ 1
unfolding len_utf8
len_utf8-ascii c h = ground arith

take_bytes-ascii :
    (n : ℕ) (s : Text) → All (λ c. c < 128) s → (t : Text) × (take_bytes n s ≡ some t)
unfolding take_bytes
take_bytes-ascii n [] a = ([], refl)
take_bytes-ascii n (c ∷ s) a =
    let (t, e) = take_bytes-ascii (n - len_utf8 c) s a.1 in
    let one = len_utf8-ascii c a.0 in
    elim (Bool-cases (n == 0)) [
      | inl z ↦ ([], rw z refl)
      | inr nz ↦
          let room : ltb n (len_utf8 c) ≡ false = rw one (ground arith) in
          (c ∷ t, rw (nz, room, e) refl)
    ]

truncated-ascii :
    (body : Text) → All (λ c. c < 128) body → (t : Text) × (truncated (some body) ≡ some t)
unfolding truncated
truncated-ascii body a = elim (Bool-cases (ltb 256 (byte_len body))) [
  | inl e ↦ let (t, taken) = take_bytes-ascii 256 body a in (t, rw e taken)
  | inr e ↦ (body, rw e refl)
]

-- What `check` makes of a response, read off it.
Read : Response → Type 0
Read r =
    (k : KeyHealthResult) × (check r ≡ some k) × (is_ok k ≡ works r) × (code_of k ≡ refused_with r)

check-status :
    (code : ℕ) (body : Option Text) (t : Text) → truncated body ≡ some t → Read (status code body)
unfolding Read check network_error_of is_ok
check-status code body t e = elim (Bool-cases (leb 200 code && leb code 299)) [
  | inl fine ↦
      let other : (code == 401 || code == 403) ≡ false = ground arith in
      (ok, rw fine refl, sym fine, rw other refl)
  | inr bad ↦ elim (Bool-cases (code == 401 || code == 403)) [
    | inl refused ↦ (auth_error code, rw (bad, refused) refl, sym bad, rw refused refl)
    | inr other ↦ (
      network_error (codes "status " ++ (show code ++ (codes ": " ++ t))),
      rw (bad, other, e) refl,
      sym bad,
      rw other refl,
    )
  ]
]

check-ascii : (r : Response) → HasAsciiBody r → Read r
unfolding Read check is_ok truncated
check-ascii (transport_error e) a = (network_error e, refl, refl, refl)
check-ascii (status code none) a = check-status code none _ refl
check-ascii (status code (some body)) a =
    let (t, e) = truncated-ascii body a in check-status code (some body) t e

pass_lem :
    (i : Pass) (p : Probe)
    → HasAsciiBody i.response
    → p.running ≡ true
    → ((pass i p).running ≡ true)
      × ((pass i p).key_healthy ≡ works i.response)
      × ((pass i p).published ≡ p.published ++ statuses (i ∷ []))
unfolding pass checked statuses Read
pass_lem i p a r =
    let (k, e, fine, code) = check-ascii i.response a in
    elim (Bool-cases i.publish_ok) [
      | inl sent ↦ rw (r, e, fine, code, sent) (refl, refl, refl)
      | inr lost ↦ rw (r, e, fine, code, lost) (refl, refl, sym (append-nil p.published))
    ]

statuses-cons : (i : Pass) (is : List Pass) → statuses (i ∷ is) ≡ statuses (i ∷ []) ++ statuses is
unfolding statuses
statuses-cons i is = elim (Bool-cases i.publish_ok) [ inl e ↦ rw e refl | inr e ↦ rw e refl ]

-- The response of the last of some passes.
pub last_works : Bool → List Pass → Bool
last_works before [] = before
last_works before (i ∷ is) = last_works (works i.response) is

-- While the bodies of the responses are ASCII, the loop of the probe does not end; the flag is whether the
-- last response had a status from 200 to 299; and each publish that succeeds has sent one event to the bus,
-- in order, with what its response says and the code 401 or 403 where it was refused.
pub spawn_background-latest :
    (is : List Pass) (p : Probe)
    → All (λ i. HasAsciiBody i.response) is
    → p.running ≡ true
    → ((spawn_background is p).running ≡ true)
      × ((spawn_background is p).key_healthy ≡ last_works p.key_healthy is)
      × ((spawn_background is p).published ≡ p.published ++ statuses is)
unfolding spawn_background last_works statuses
spawn_background-latest [] p a r = (r, refl, sym (append-nil p.published))
spawn_background-latest (i ∷ is) p a r =
    let (running, healthy, published) = pass_lem i p a.0 r in
    let (r', h', p') = spawn_background-latest is (pass i p) a.1 running in
    (
      r',
      h' ∙ ap (λ b. last_works b is) healthy,
      p'
          ∙ ap (λ l. l ++ statuses is) published
          ∙ append_assoc p.published (statuses (i ∷ [])) (statuses is)
          ∙ ap (λ l. p.published ++ l) (sym (statuses-cons i is)),
    )
