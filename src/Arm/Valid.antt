-- ===== src/Arm/Valid.antt =====
-- The session's invariant: the transport, the queues, the process number and the facts read from the
-- device belong together.
pub mod Close
pub mod Connect
pub mod Reach
use litearm_cpp.Base.{
  ℕ, suc, ◌+◌, ◌≤◌, ◌≡◌, refl, arith, List, [], ◌∷◌, Option, none, some, Bool, true, false, ◌==◌,
  ◌&&◌, if◌then◌else◌, Bool-cases, inl, inr,
}
use litearm_cpp.Errors.{Failure}
use litearm_cpp.Action.Preserves.{Preserves}
use litearm_cpp.Floats.{Floats}
use litearm_cpp.Params.{JointParam}
use litearm_cpp.Arm.{Arm}
use litearm_cpp.Arm.Hover.{is_linked, is_kept_alive}
use litearm_cpp.Arm.Connect.{all_sane}
use litearm_cpp.Arm.Inert.{Inert}

abbrev pub has_pid : Option ℕ → Bool
has_pid none = false
has_pid (some pid) = true

abbrev pub UpTo : ℕ → Option ℕ → Type 0
UpTo current none = Unit {0}
UpTo current (some pid) = pid ≤ current

module _ (floats : Floats) where
  pub record IsValid (arm : Arm floats) : Type 0 where
    -- The transport, the queues and the process number come and go together.
    pub linked : is_linked floats arm.tr ≡ arm.ack_open
    pub stamped : has_pid arm.pid ≡ arm.ack_open
    -- A closed session keeps no text, version, joint count or support.
    pub cleared :
        arm.ack_open ≡ false
        → (arm.firmware ≡ []) × (arm.fw_version ≡ none) × (arm.n ≡ 0) × (arm.cart_supported ≡ false)
    -- Once the device was handed over, the session is closed.
    pub gone : arm.dfu_entered ≡ true → arm.ack_open ≡ false
    -- Limits that are kept are finite and in order.
    pub bounded : all_sane floats arm.limits ≡ true
    -- The thread of zero gravity runs only in the process of the open session.
    pub threaded : arm.zg_active ≡ true → arm.zg_thread ≡ true
    pub owned : is_kept_alive floats arm ≡ true → arm.pid ≡ some arm.current_pid
    pub numbered : arm.zg_owner ≤ arm.current_pid
    pub known : UpTo arm.current_pid arm.pid

  -- A valid session, by whether it was handed over; one that is open as well.
  abbrev pub IsAt : Bool → Arm floats → Type 0
  IsAt dfu arm = IsValid arm × (arm.dfu_entered ≡ dfu)

  abbrev pub IsLive : Arm floats → Type 0
  IsLive arm = IsValid arm × (arm.dfu_entered ≡ false) × (arm.ack_open ≡ true)

  pub IsAt-Inert : (dfu : Bool) → Inert floats (IsAt dfu)
  IsAt-Inert dfu arm box later sent writes (v, d) = (
    record {
      linked = v.linked;
      stamped = v.stamped;
      cleared = v.cleared;
      gone = v.gone;
      bounded = v.bounded;
      threaded = v.threaded;
      owned = v.owned;
      numbered = v.numbered;
      known = v.known;
    },
    d,
  )

  pub IsLive-Inert : Inert floats IsLive
  IsLive-Inert arm box later sent writes (v, d, o) =
      ((IsAt-Inert false arm box later sent writes (v, d)).0, d, o)
