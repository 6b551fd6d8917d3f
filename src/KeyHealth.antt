-- ===== src/KeyHealth.antt =====
-- src/key_health.rs: the probe of the API key. What a request comes back with is a parameter of each pass
-- of the loop; a panic ends the loop, and the flag then stays.
pub mod Latest
mod Tests
use wintermute_brain.Prelude.Decimal.{show}
use wintermute_brain.Prelude.Unicode.{byte_len, len_utf8}
use wintermute_brain.Prelude.{
  ℕ, ◌-◌, Bool, true, false, ◌&&◌, ◌||◌, List, [], ◌∷◌, ◌++◌, Option, none, some, Text, codes, ltb,
  leb, ◌==◌, if◌then◌else◌,
}

pub data KeyHealthResult : Type 0 where
  ok : KeyHealthResult
  auth_error : (code : ℕ) → KeyHealthResult
  network_error : (msg : Text) → KeyHealthResult

unfoldable pub is_ok : KeyHealthResult → Bool
is_ok ok = true
is_ok (auth_error code) = false
is_ok (network_error msg) = false

-- A response with its status and body, `none` where that cannot be read; or the error of the transport.
pub data Response : Type 0 where
  status : (code : ℕ) (body : Option Text) → Response
  transport_error : Text → Response

-- `body[..n]`: `none` for the panic where byte `n` is inside a character.
abbrev pub prepend : ℕ → Option Text → Option Text
prepend c none = none
prepend c (some s) = some (c ∷ s)

unfoldable pub take_bytes : ℕ → Text → Option Text
take_bytes n [] = some []
take_bytes n (c ∷ s) =
    let rest = prepend c (take_bytes (n - len_utf8 c) s) in
    if n == 0 then some [] else if ltb n (len_utf8 c) then none else rest

unfoldable pub truncated : Option Text → Option Text
truncated none = some (codes "(unreadable)")
truncated (some body) = if ltb 256 (byte_len body) then take_bytes 256 body else some body

network_error_of : ℕ → Option Text → Option KeyHealthResult
network_error_of code none = none
network_error_of code (some preview) =
    some (network_error (codes "status " ++ (show code ++ (codes ": " ++ preview))))

-- `check`; `none` for a panic.
unfoldable pub check : Response → Option KeyHealthResult
unfolding network_error_of
check (transport_error e) = some (network_error e)
check (status code body) =
    if leb 200 code && leb code 299
    then some ok
    else if code == 401 || code == 403
    then some (auth_error code)
    else network_error_of code (truncated body)

abbrev pub code_of : KeyHealthResult → Option ℕ
code_of ok = none
code_of (auth_error code) = some code
code_of (network_error msg) = none

-- The payload of `wm.brain.key_status`.
pub record KeyStatus : Type 0 where
  pub ok : Bool
  pub code : Option ℕ
  pub ts : ℕ

-- One pass of the loop: its response, its time and whether its publish succeeds.
pub record Pass : Type 0 where
  pub response : Response
  pub ts : ℕ
  pub publish_ok : Bool

pub record Probe : Type 0 where
  pub key_healthy : Bool
  pub running : Bool
  pub published : List KeyStatus

checked : Option KeyHealthResult → Pass → Probe → Probe
checked none i p = record p { running = false }
checked (some result) i p = record p {
  key_healthy = is_ok result;
  published =
      if i.publish_ok
      then p.published ++ record { ok = is_ok result; code = code_of result; ts = i.ts } ∷ []
      else p.published;
}

unfoldable pub pass : Pass → Probe → Probe
unfolding checked
pass i p = if p.running then checked (check i.response) i p else p

-- The loop of `spawn_background` over some passes.
unfoldable pub spawn_background : List Pass → Probe → Probe
spawn_background [] p = p
spawn_background (i ∷ is) p = spawn_background is (pass i p)
