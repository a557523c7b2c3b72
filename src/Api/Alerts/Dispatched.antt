-- ===== src/Api/Alerts/Dispatched.antt =====
-- The dispatch of an alert to the notification service,
-- services/api/app/usecases/alert_usecase.py.
use theft_detection_platform.Prelude.{ℕ, ◌+◌, ◌≤◌, ◌≡◌, ◌↔◌, ◌⊎◌, true, List, [], ◌∷◌, arith}
use theft_detection_platform.Api.Alerts.UseCase.{
  SendReply, taken, unavailable, dispatch_loop, dispatch,
}

abbrev pub total : List ℕ → ℕ
total [] = 0
total (x ∷ xs) = x + total xs

-- An alert is sent three times at most, with pauses of at most one and a half seconds together; it
-- counts as dispatched exactly where one of the three sends is
-- taken and all before it were unavailable.
pub dispatch_lem :
    (send : ℕ → SendReply)
    → ((dispatch send).sends ≤ 3)
      × (total (dispatch send).sleeps ≤ 1500)
      × (((dispatch send).dispatched ≡ true) ↔ (
          (send 1 ≡ taken)
          ⊎ ((send 1 ≡ unavailable) × (send 2 ≡ taken))
          ⊎ ((send 1 ≡ unavailable) × (send 2 ≡ unavailable) × (send 3 ≡ taken))))
unfolding dispatch dispatch_loop
dispatch_lem send = ground arith
