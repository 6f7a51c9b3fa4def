-- ===== src/Params.antt =====
-- The joint parameters and the dynamics model: `JointParams` and `ModelParams` of
-- `include/litearm/params.hpp`, `include/litearm/model.hpp`, `src/params.cpp` and `src/model.cpp`.
-- A setter is the command and the payload that it sends; a getter is what it makes of the answer.
pub mod RoundTrip
mod Examples
use litearm_cpp.Base.{
  ℕ, zero, suc, ◌+◌, ◌*◌, List, [], ◌∷◌, ◌++◌, Option, none, some, Bool, true, false, not, ◌==◌,
  ltb, leb, if◌then◌else◌, length,
}
use litearm_cpp.Errors.{
  Failure, Result, ok, err, transport, invalid_command, unsupported_by_firmware,
}
use litearm_cpp.Floats.{Floats}
use litearm_cpp.Protocol.Frame.{byte_at, u8}
use litearm_cpp.Protocol.Scalar.{pack_u16le, read_u16le, pack_f32s, f32_at, unpack_f32s}

-- What is sent, and which answer is waited for.
pub record Sent : Type 0 where
  pub cmd : ℕ
  pub payload : List ℕ

-- An index is an `int`; `none` stands for the negative ones.
abbrev pub Index : Type 0
Index = Option ℕ

abbrev pub index_below : ℕ → Index → Result ℕ
index_below upper none = err invalid_command
index_below upper (some idx) = if ltb idx upper then ok idx else err invalid_command

-- `check_idx`, for an arm of `n` joints.
unfoldable pub check_idx : ℕ → Index → Result ℕ
check_idx n idx = index_below (if ltb 0 n then n else 1) idx

abbrev pub model_nbody : ℕ
model_nbody = 9

unfoldable pub check_body_idx : Index → Result ℕ
check_body_idx idx = index_below model_nbody idx

pub record ModelStatus : Type 0 where
  pub override_level : ℕ
  pub staged_mask : ℕ
  pub dirty : ℕ

unfoldable pub decode_model_status : List ℕ → Result ModelStatus
decode_model_status payload =
    if not (length payload == 5)
    then err transport
    else if not (byte_at payload 0 == 0x56)
    then err transport
    else ok (record {
      override_level = byte_at payload 1;
      staged_mask = read_u16le payload 2;
      dirty = byte_at payload 4;
    })

-- `commit`, `revert` and `reset_factory`.
unfoldable pub commit : ℕ → Sent
commit expected_mask = record { cmd = 0x32; payload = pack_u16le expected_mask }

pub revert : Sent
revert = record { cmd = 0x37; payload = [] }

pub reset_factory : Sent
reset_factory = record { cmd = 0x36; payload = [] }

pub record JointParam (D : Type 0) : Type 0 where
  pub idx : ℕ
  pub kp : D
  pub kd : D
  pub tau_max : D
  pub q_min : D
  pub q_max : D

module _ (floats : Floats) where
  open floats use {Double, less}

  unfoldable pub decode_joint_param : List ℕ → Result (JointParam Double)
  decode_joint_param payload =
      if ltb (length payload) 21
      then err transport
      else ok (record {
        idx = byte_at payload 0;
        kp = f32_at floats payload 1;
        kd = f32_at floats payload 5;
        tau_max = f32_at floats payload 9;
        q_min = f32_at floats payload 13;
        q_max = f32_at floats payload 17;
      })

  abbrev pub indexed : ℕ → List Double → Result ℕ → Result Sent
  indexed cmd values (err e) = err e
  indexed cmd values (ok idx) =
      ok (record { cmd = cmd; payload = u8 idx ∷ pack_f32s floats values })

  unfoldable pub set_joint_param : ℕ → Index → Double → Double → Double → Result Sent
  set_joint_param n idx kp kd tau_max = indexed 0x22 (kp ∷ kd ∷ tau_max ∷ []) (check_idx n idx)

  abbrev pub limits : Double → Double → Result ℕ → Result Sent
  limits q_min q_max (err e) = err e
  limits q_min q_max (ok idx) =
      if less q_min q_max then indexed 0x23 (q_min ∷ q_max ∷ []) (ok idx) else err invalid_command

  unfoldable pub set_joint_limits : ℕ → Index → Double → Double → Result Sent
  set_joint_limits n idx q_min q_max = limits q_min q_max (check_idx n idx)

  abbrev pub body : List Double → Result ℕ → Result Sent
  body vals (err e) = err e
  body vals (ok idx) = if length vals == 10 then indexed 0x30 vals (ok idx) else err invalid_command

  unfoldable pub set_body : Index → List Double → Result Sent
  set_body idx vals = body vals (check_body_idx idx)

  -- What `get_body` makes of the answer to the query for a body.
  abbrev pub body_reply : List ℕ → Result ℕ → Result (List Double)
  body_reply payload (err e) = err e
  body_reply payload (ok idx) =
      if not (length payload == 42)
      then err transport
      else if not (byte_at payload 0 == 0x54)
      then err transport
      else if not (byte_at payload 1 == u8 idx)
      then err transport
      else ok (unpack_f32s floats payload 2 10)

  unfoldable pub get_body : Index → List ℕ → Result (List Double)
  get_body idx payload = body_reply payload (check_body_idx idx)

  unfoldable pub set_jm : List Double → Result Sent
  set_jm vals =
      if length vals == 7
      then ok (record { cmd = 0x33; payload = pack_f32s floats vals })
      else err invalid_command

  -- What `get_jm` and `get_gravity` make of the answer, which has the id in its first byte.
  unfoldable pub seven_reply : ℕ → List ℕ → Result (List Double)
  seven_reply id payload =
      if not (length payload == 29)
      then err transport
      else if not (byte_at payload 0 == id)
      then err transport
      else ok (unpack_f32s floats payload 1 7)

  unfoldable pub get_jm : List ℕ → Result (List Double)
  get_jm payload = seven_reply 0x55 payload

  pub get_gravity : List ℕ → Result (List Double)
  get_gravity payload = seven_reply 0x57 payload

  unfoldable pub query_gravity : List Double → Result Sent
  query_gravity q =
      if length q == 7
      then ok (record { cmd = 0x39; payload = pack_f32s floats q })
      else err invalid_command

  -- `probe`: whether the firmware knows the query; other failures go on to the caller.
  pub probe : Result (List Double) → Result Bool
  probe (ok values) = ok true
  probe (err (unsupported_by_firmware cmd code)) = ok false
  probe (err e) = err e
