-- ===== src/Delivery/Input/Cases.antt =====
-- A normalized input is a result or a fault.
use team_flow.Prelude.{◌≡◌, ◌⊎◌, refl, inl, inr}
use team_flow.Delivery.Input.{Normal, InputFault, normal, input_fault}

pub normal_cases :
    {A : Type 0} (m : Normal A)
    → ((e : InputFault) × (m ≡ input_fault e)) ⊎ ((x : A) × (m ≡ normal x))
normal_cases (normal x) = inr (x, refl)
normal_cases (input_fault e) = inl (e, refl)
