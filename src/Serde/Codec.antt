-- ===== src/Serde/Codec.antt =====
-- reflect-cpp over Cap'n Proto, as serialization.h uses it: what a value is serialized to is read
-- back from the front of the bytes, whatever stands behind.
use ncaf.Common.{◌≡◌, ℕ, List, ◌++◌, Option, some}

pub record Codec (A : Type 0) : Type 0 where
  pub serialize : A → List ℕ
  pub deserialize : List ℕ → Option A
  pub deserialize-serialize :
      (a : A) (behind : List ℕ) → deserialize (serialize a ++ behind) ≡ some a

-- ActorRefDeserializationInfo; an actor is known by its address, `none` for null.
pub record DeserializationInfo : Type 0 where
  pub this_node_id : ℕ
  pub actor_look_up_fn : ℕ → Option ℕ

-- The same for a type that may hold references to actors: what a value becomes at the node that
-- reads it is `arrive`.
pub record ArgsCodec (A : Type 0) : Type 0 where
  pub serialize : A → List ℕ
  pub deserialize : DeserializationInfo → List ℕ → Option A
  pub arrive : DeserializationInfo → A → A
  pub deserialize-serialize :
      (info : DeserializationInfo) (a : A) (behind : List ℕ)
      → deserialize info (serialize a ++ behind) ≡ some (arrive info a)
