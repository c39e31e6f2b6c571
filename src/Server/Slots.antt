-- ===== src/Server/Slots.antt =====
-- The watches that a stream holds, one slot for each kind.
use bent.Server.{
  secrets, listeners, routes, clusters, endpoints, put_slot, slot, Kind, Watches, Slot,
}
use bent.Shared.{◌≡◌, refl, ◌⊎◌, inl, inr}

-- The slots of two kinds are two slots.
pub slot-put_slot :
    {A : Type 0} (j k : Kind) (s : Slot A) (ws : Watches A)
    → (j ≡ k) ⊎ (slot j (put_slot k s ws) ≡ slot j ws)
slot-put_slot endpoints k s ws =
    elim k as (λ k. (endpoints ≡ k) ⊎ (slot endpoints (put_slot k s ws) ≡ slot endpoints ws)) [
      | endpoints ↦ inl refl
      | clusters ↦ inr refl
      | routes ↦ inr refl
      | listeners ↦ inr refl
      | secrets ↦ inr refl
    ]
slot-put_slot clusters k s ws =
    elim k as (λ k. (clusters ≡ k) ⊎ (slot clusters (put_slot k s ws) ≡ slot clusters ws)) [
      | endpoints ↦ inr refl
      | clusters ↦ inl refl
      | routes ↦ inr refl
      | listeners ↦ inr refl
      | secrets ↦ inr refl
    ]
slot-put_slot routes k s ws =
    elim k as (λ k. (routes ≡ k) ⊎ (slot routes (put_slot k s ws) ≡ slot routes ws)) [
      | endpoints ↦ inr refl
      | clusters ↦ inr refl
      | routes ↦ inl refl
      | listeners ↦ inr refl
      | secrets ↦ inr refl
    ]
slot-put_slot listeners k s ws =
    elim k as (λ k. (listeners ≡ k) ⊎ (slot listeners (put_slot k s ws) ≡ slot listeners ws)) [
      | endpoints ↦ inr refl
      | clusters ↦ inr refl
      | routes ↦ inr refl
      | listeners ↦ inl refl
      | secrets ↦ inr refl
    ]
slot-put_slot secrets k s ws =
    elim k as (λ k. (secrets ≡ k) ⊎ (slot secrets (put_slot k s ws) ≡ slot secrets ws)) [
      | endpoints ↦ inr refl
      | clusters ↦ inr refl
      | routes ↦ inr refl
      | listeners ↦ inr refl
      | secrets ↦ inl refl
    ]

pub slot-put_slot_same :
    {A : Type 0} (k : Kind) (s : Slot A) (ws : Watches A) → slot k (put_slot k s ws) ≡ s
slot-put_slot_same endpoints s ws = refl
slot-put_slot_same clusters s ws = refl
slot-put_slot_same routes s ws = refl
slot-put_slot_same listeners s ws = refl
slot-put_slot_same secrets s ws = refl
