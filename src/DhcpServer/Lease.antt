-- ===== src/DhcpServer/Lease.antt =====
-- The lease time that is written for dnsmasq.
use tu_thesis.Base.{
  [], ◌∷◌, ◌⊎◌, ℕ, ◌+◌, ◌*◌, ◌/◌, ◌≤◌, ◌<◌, ◌≡◌, refl, ◌++◌, ltb, arith, Bool-cases, inl, inr,
}
use tu_thesis.Text.Bytes.{Bytes, bytes}
use tu_thesis.Text.Number.{to_string}
use tu_thesis.Exec.{ok, throw, invalid_argument}
use tu_thesis.World.{World}
use tu_thesis.DhcpServer.{lease_string, create_configuration}

-- `,` and `count` units of so many seconds, as near below the lease as that unit allows.
pub record Written (lease : ℕ) (text : Bytes) : Type 0 where
  pub count : ℕ
  pub seconds : ℕ
  pub unit : Bytes
  pub is_unit : ((unit ≡ bytes "h") × (seconds ≡ 3600)) ⊎ ((unit ≡ bytes "m") × (seconds ≡ 60))
  pub is_text : text ≡ bytes "," ++ (to_string count ++ unit)
  pub positive : 0 < count
  pub within : count * seconds ≤ lease
  pub nearest : lease < (count + 1) * seconds

-- A lease of two minutes or more is written as a positive number of minutes or hours that does not
-- exceed it, and the next number would.
pub lease_string-Written :
    (lease : ℕ) → 120 ≤ lease → (text : Bytes) × (lease_string lease ≡ ok text) × Written lease text
unfolding lease_string
lease_string-Written lease h = elim (Bool-cases (ltb 3600 lease)) [
  | inl long ↦ (
    bytes "," ++ (to_string (lease / 60 / 60) ++ bytes "h"),
    ground arith,
    record {
      count = lease / 60 / 60;
      seconds = 3600;
      unit = bytes "h";
      is_unit = inl (refl, refl);
      is_text = refl;
      positive = ground arith;
      within = ground arith;
      nearest = ground arith;
    },
  )
  | inr short ↦ (
    bytes "," ++ (to_string (lease / 60) ++ bytes "m"),
    ground arith,
    record {
      count = lease / 60;
      seconds = 60;
      unit = bytes "m";
      is_unit = inr (refl, refl);
      is_text = refl;
      positive = ground arith;
      within = ground arith;
      nearest = ground arith;
    },
  )
]

lease_string_short :
    (lease : ℕ)
    → lease < 120
    → lease_string lease
      ≡ throw (invalid_argument (bytes "(lease time cannot be less then 2 minutes(120s)"))
unfolding lease_string
lease_string_short lease short = ground arith

-- An empty first or last address, or a lease below two minutes, is reported before anything is
-- written: an exception of type invalid_argument is thrown, and the world is as it was.
pub create_configuration_refused :
    (name first last : Bytes) (lease : ℕ) (w : World)
    → (first ≡ []) ⊎ ((last ≡ []) ⊎ (lease < 120))
    → (message : Bytes) × (create_configuration name first last lease w
        ≡ (throw (invalid_argument message), w))
unfolding create_configuration
create_configuration_refused name [] last lease w bad = (_, refl)
create_configuration_refused name (c ∷ first) [] lease w bad = (_, refl)
create_configuration_refused name (c ∷ first) (d ∷ last) lease w (inl h) = cc
create_configuration_refused name (c ∷ first) (d ∷ last) lease w (inr (inl h)) = cc
create_configuration_refused name (c ∷ first) (d ∷ last) lease w (inr (inr short)) = (
  bytes "(lease time cannot be less then 2 minutes(120s)",
  rw (lease_string_short lease short) refl,
)
