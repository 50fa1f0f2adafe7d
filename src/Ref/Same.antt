-- ===== src/Ref/Same.antt =====
-- Equality and hash of references.
use ncaf.Common.{◌≡◌, ◌⊎◌, ℕ, true, arith}
use ncaf.Registry.{ActorRef}
use ncaf.Ref.{ref_eq, hash_ref}

-- Equal references, both empty or neither, are empty or lead to the same actor of the same node, and
-- have the same hash, whatever the hashes of integers are.
pub ref_eq-hash_ref :
    (hash64 hash32 : ℕ → ℕ) (a b : ActorRef)
    → a.is_empty ≡ b.is_empty
    → ref_eq a b ≡ true
    → ((a.is_empty ≡ true) ⊎ ((a.node_id ≡ b.node_id) × (a.actor_id ≡ b.actor_id)))
      × (hash_ref hash64 hash32 a ≡ hash_ref hash64 hash32 b)
unfolding ref_eq hash_ref
ref_eq-hash_ref hash64 hash32 a b alike same = (ground arith, ground arith)
