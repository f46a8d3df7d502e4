-- ===== src/Tests/Pq.antt =====
-- Key bundles and lists of eggs on small inputs.
use fgtw.Base.{◌≡◌, refl, List, [], ◌∷◌, replicate, arith}
use fgtw.Base.Result.{ok}
use fgtw.Primitives.{Egg}
use fgtw.Pq.Scheme.{pubkey_len}
use fgtw.Pq.Bundle.{
  Key, KeyBundle, insert_key, sort_keys, has_duplicate, check_lens, find_key, validate, new,
  to_bytes, from_bytes,
}
use fgtw.Pq.Eggs.{verify_eggs, verify_eggs_declared}
use fgtw.Pq.RoundTrip.{from_bytes-to_bytes}
use fgtw.Pq.Verdicts.{declared_eggs, verify_eggs_declared-verify_eggs}
use fgtw.Tests.Toy.{toy, phone, egg}

-- An Ed25519 key and an SLH-DSA one, out of order.
abbrev pub held : List Key
held = record { scheme = 2; key = replicate 32 6 } ∷ record { scheme = 0; key = phone } ∷ []

abbrev pub bundle : KeyBundle
bundle = record {
  keys = record { scheme = 0; key = phone } ∷ record { scheme = 2; key = replicate 32 6 } ∷ [];
}

made : new toy held ≡ ok bundle
unfolding new validate sort_keys insert_key has_duplicate check_lens find_key pubkey_len
made = refl

from_bytes-to_bytes_example : from_bytes toy (to_bytes bundle) ≡ ok bundle
from_bytes-to_bytes_example =
    from_bytes-to_bytes toy held bundle made (omega arith)
      ((omega arith, omega arith), ((omega arith, omega arith), tt))

-- A Falcon egg, for which the bundle has no key, beside an Ed25519 one.
abbrev eggs : List Egg
eggs = egg ∷ record { scheme = 1; sig = [] } ∷ []

verify_eggs_declared-verify_eggs_example :
    verify_eggs_declared toy eggs bundle [] 1
    ≡ verify_eggs toy (declared_eggs bundle eggs) bundle [] 1
verify_eggs_declared-verify_eggs_example =
    verify_eggs_declared-verify_eggs toy bundle [] eggs 1 (omega arith, (omega arith, tt))
