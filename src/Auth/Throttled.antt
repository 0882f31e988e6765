-- ===== src/Auth/Throttled.antt =====
-- The throttle of logins, which may overlap.
use watchpost.Base.{
  ◌+◌, ◌<◌, count, true, false, ℕ, ◌≤◌, String, ◌≡◌, List, [], ◌∷◌, ◌++◌, ◌==◌, filter, length,
}
use watchpost.Store.Audit.{Entry}
use watchpost.Auth.{Tables, Primitives}
use watchpost.Auth.Sessions.{
  Failures, max_failures, is_recent, failures_of, allow, verify, throttle_key,
}

-- Logins that overlap, at most `n` at a time: each is granted or refused by `allow`, and one that is
-- granted ends later, with the failures that the others have left by then. The times do not fall,
-- and the tables are any. The names of the logins under way stand in the list.
pub data Logins (core : Primitives) (n start : ℕ) (f : Failures)
    : ℕ → List String → Failures → Type 0 where
  done : Logins core n start f start [] f
  entered :
      {mid : Failures} {at : ℕ} {names : List String} (now : ℕ) (email : String)
      → Logins core n start f at names mid
      → at ≤ now
      → (allow (throttle_key core email) now mid).1 ≡ true
      → length names < n
      → Logins core n start f now
          (throttle_key core email ∷ names)
          (allow (throttle_key core email) now mid).0
  refused :
      {mid : Failures} {at : ℕ} {names : List String} (now : ℕ) (email : String)
      → Logins core n start f at names mid
      → at ≤ now
      → (allow (throttle_key core email) now mid).1 ≡ false
      → Logins core n start f now names (allow (throttle_key core email) now mid).0
  ended :
      {mid : Failures} {at : ℕ} (before after : List String) (now : ℕ)
      (email password token csrf : String) (entry : Entry) (t : Tables)
      → Logins core n start f at (before ++ throttle_key core email ∷ after) mid
      → at ≤ now
      → Logins core n start f now
          (before ++ after)
          (verify core email password token csrf now entry mid t).failures

abbrev pub recent : ℕ → List ℕ → ℕ
recent now times = length (filter (is_recent now) times)

abbrev pub under_way : String → List String → ℕ
under_way key names = count (λ n. n == key) names

-- of every name, the failures in the window that ends now and the logins under way
pub record IsThrottled (n now : ℕ) (names : List String) (f : Failures) : Type 0 where
  pub few : (key : String) → recent now (failures_of key f) + under_way key names < max_failures + n
