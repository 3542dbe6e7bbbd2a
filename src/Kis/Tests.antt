-- ===== src/Kis/Tests.antt =====
-- A gateway that fails, and the polling of an order against it.
use prime_jennie.Kis.{confirm_order}
use prime_jennie.Kis.Polls.{asks, IsOk, confirm_order-Returns}
use prime_jennie.Prelude.{◌≤◌, none, []}
use prime_jennie.Float.Fixed.{Fixed}
use prime_jennie.Services.Calls.{Env}

abbrev failing : Env Fixed
failing = record { respond = λ h c. none }

confirm_order-Returns_example :
    IsOk (confirm_order failing "0001" 10 []).0 × (asks (confirm_order failing "0001" 10 []).1 ≤ 10)
confirm_order-Returns_example = confirm_order-Returns failing "0001" 10 []
