-- ===== src/Proxy/Socks/Replies.antt =====
-- The replies of a SOCKS5 proxy that let a client through, and the tests of `proxy_socks5_handle_read`
-- on them.
use mathlib.Core.Bool.{false≢true}
use avar.Base.{
  Bool, List, Option, Option-cases, [], arith, false, inl, inr, length, none, refl, some, suc, true,
  zero, ℕ, ◌&&◌, ◌==◌, ◌||◌, ◌↔◌, ◌∷◌, ◌≡◌, ◌≤◌,
}
use avar.CString.{Text, has_prefix}
use avar.Proxy.Socks.{auth_accepted, connect_accepted, greeting_method}

-- The replies with which RFC 1928 and RFC 1929 let a client through: `auth` says whether it offers
-- a user name and a password.
pub data Accepted (auth : Bool) : List Text → Type 0 where
  plain :
      (method reply : Text) (more : List Text)
      → has_prefix method (5 ∷ 0 ∷ []) ≡ true
      → has_prefix reply (5 ∷ 0 ∷ []) ≡ true
      → 4 ≤ length reply
      → Accepted auth (method ∷ reply ∷ more)
  with_password :
      (method status reply : Text) (more : List Text)
      → auth ≡ true
      → has_prefix method (5 ∷ 2 ∷ []) ≡ true
      → has_prefix status (1 ∷ 0 ∷ []) ≡ true
      → has_prefix reply (5 ∷ 0 ∷ []) ≡ true
      → 4 ≤ length reply
      → Accepted auth (method ∷ status ∷ reply ∷ more)

connect_accepted_iff :
    (reply : Text)
    → (connect_accepted reply ≡ true)
      ↔ ((has_prefix reply (5 ∷ 0 ∷ []) ≡ true) × (4 ≤ length reply))
unfolding connect_accepted
connect_accepted_iff [] = (λ h. ground arith, λ h. ground arith)
connect_accepted_iff (a ∷ []) = (λ h. ground arith, λ h. ground arith)
connect_accepted_iff (a ∷ b ∷ []) = (λ h. ground arith, λ h. ground arith)
connect_accepted_iff (a ∷ b ∷ c ∷ []) = (λ h. ground arith, λ h. ground arith)
connect_accepted_iff (a ∷ b ∷ c ∷ d ∷ rest) = (λ h. (ground arith, omega arith), λ h. ground arith)

auth_accepted_lem : (status : Text) → auth_accepted status ≡ has_prefix status (1 ∷ 0 ∷ [])
unfolding auth_accepted
auth_accepted_lem [] = refl
auth_accepted_lem (a ∷ []) = ground arith
auth_accepted_lem (a ∷ b ∷ rest) = ground arith

greeting_method_iff :
    (method : Text) (n : ℕ)
    → (greeting_method method ≡ some n) ↔ (has_prefix method (5 ∷ n ∷ []) ≡ true)
unfolding greeting_method
greeting_method_iff [] n = (λ h. ground arith, λ h. ground arith)
greeting_method_iff (a ∷ []) n = (λ h. ground arith, λ h. ground arith)
greeting_method_iff (a ∷ b ∷ rest) n = (λ h. ground arith, λ h. ground arith)

abbrev pub connect_ok : List Text → Bool
connect_ok [] = false
connect_ok (reply ∷ bufs) = connect_accepted reply

abbrev pub auth_ok : List Text → Bool
auth_ok [] = false
auth_ok (status ∷ bufs) = auth_accepted status && connect_ok bufs

abbrev pub method_ok : Bool → ℕ → List Text → Bool
method_ok auth method bufs =
    (method == 0 && connect_ok bufs) || (method == 2 && (auth && auth_ok bufs))

abbrev pub method_given : Bool → List Text → Option ℕ → Bool
method_given auth bufs none = false
method_given auth bufs (some n) = method_ok auth n bufs

abbrev pub greeting_ok : Bool → List Text → Bool
greeting_ok auth [] = false
greeting_ok auth (method ∷ bufs) = method_given auth bufs (greeting_method method)

connect_ok-plain :
    (m : Text) (auth : Bool) (bufs : List Text)
    → has_prefix m (5 ∷ 0 ∷ []) ≡ true
    → connect_ok bufs ≡ true
    → Accepted auth (m ∷ bufs)
connect_ok-plain m auth [] p ok = absurd (false≢true ok)
connect_ok-plain m auth (reply ∷ more) p ok =
    let accepted = (connect_accepted_iff reply).0 ok in plain m reply more p accepted.0 accepted.1

auth_ok-with_password :
    (m : Text) (bufs : List Text)
    → has_prefix m (5 ∷ 2 ∷ []) ≡ true
    → auth_ok bufs ≡ true
    → Accepted true (m ∷ bufs)
auth_ok-with_password m [] p ok = absurd (false≢true ok)
auth_ok-with_password m (status ∷ []) p ok = ground arith
auth_ok-with_password m (status ∷ reply ∷ more) p ok =
    let accepted = (connect_accepted_iff reply).0 (ground arith) in
    with_password m status reply more refl p (ground (arith, auth_accepted_lem status)) accepted.0
      accepted.1

method_ok-Accepted :
    (auth : Bool) (m : Text) (n : ℕ) (bufs : List Text)
    → has_prefix m (5 ∷ n ∷ []) ≡ true
    → method_ok auth n bufs ≡ true
    → Accepted auth (m ∷ bufs)
method_ok-Accepted auth m zero bufs p ok = connect_ok-plain m auth bufs p (ground arith)
method_ok-Accepted auth m (suc zero) bufs p ok = ground arith
method_ok-Accepted true m (suc (suc zero)) bufs p ok = auth_ok-with_password m bufs p (ground arith)
method_ok-Accepted false m (suc (suc zero)) bufs p ok = ground arith
method_ok-Accepted auth m (suc (suc (suc n))) bufs p ok = ground arith

greeting_ok→Accepted :
    (auth : Bool) (bufs : List Text) → greeting_ok auth bufs ≡ true → Accepted auth bufs
greeting_ok→Accepted auth [] ok = absurd (false≢true ok)
greeting_ok→Accepted auth (m ∷ bufs) ok = elim (Option-cases (greeting_method m)) [
  | inl e ↦ ground (arith, e)
  | inr (n, e) ↦
      method_ok-Accepted auth m n bufs ((greeting_method_iff m n).0 e) (ground (arith, e))
]

Accepted→greeting_ok :
    (auth : Bool) (bufs : List Text) → Accepted auth bufs → greeting_ok auth bufs ≡ true
Accepted→greeting_ok auth bufs (plain m reply more p q l) =
    ground (arith, (greeting_method_iff m 0).1 p, (connect_accepted_iff reply).1 (q, l))
Accepted→greeting_ok auth bufs (with_password m status reply more a p s q l) = ground (
  arith,
  (greeting_method_iff m 2).1 p,
  auth_accepted_lem status,
  (connect_accepted_iff reply).1 (q, l),
)

pub greeting_ok-Accepted :
    (auth : Bool) (bufs : List Text) → (greeting_ok auth bufs ≡ true) ↔ Accepted auth bufs
greeting_ok-Accepted auth bufs = (greeting_ok→Accepted auth bufs, Accepted→greeting_ok auth bufs)
