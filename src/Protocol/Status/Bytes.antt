-- ===== src/Protocol/Status/Bytes.antt =====
-- What `decode_status` reads from the layout that the firmware sends.
use litearm_cpp.Base.{
  ℕ, ◌+◌, ◌*◌, ◌/◌, ◌%◌, ◌^◌, ◌<◌, ◌≡◌, refl, ap, ap₂, subst, ◌∙◌, List, [], ◌∷◌, ◌++◌, map, some,
  arith, length, length-append, append_assoc, append-nil,
}
use litearm_cpp.Floats.{Floats}
use litearm_cpp.Protocol.Frame.{byte_at}
use litearm_cpp.Protocol.Scalar.{pack_u16le, read_u16le, pack_f32s, unpack_f32s}
use litearm_cpp.Protocol.Scalar.RoundTrip.{
  unpack-pack_f32s, read-pack_u16, at_offset, length-pack_f32s, length-pack_u16le,
}
use litearm_cpp.Protocol.Status.{JointRaw, names_from, joint_at, joints_from, decode_status}
use litearm_cpp.Protocol.Status.Layout.{status_of, decode_long}

module _ (floats : Floats) where
  open floats use {Double, narrow, widen, narrow_fits}

  -- The layout of the firmware, as the header of protocol.hpp gives it: flags and sequence number,
  -- then 21 bytes for each joint, then the fault bitmap.
  abbrev pub joint_values : JointRaw Double → List Double
  joint_values j = j.q ∷ j.dq ∷ j.tau ∷ j.t_mos ∷ j.t_coil ∷ []

  abbrev pub joint_bytes : JointRaw Double → List ℕ
  joint_bytes j = pack_f32s floats (joint_values j) ++ j.err ∷ []

  abbrev pub joints_bytes : List (JointRaw Double) → List ℕ
  joints_bytes [] = []
  joints_bytes (j ∷ joints) = joint_bytes j ++ joints_bytes joints

  -- What arrives of a joint: each value rounded to single precision.
  abbrev pub rounded : JointRaw Double → JointRaw Double
  rounded j = record {
    q = widen (narrow j.q);
    dq = widen (narrow j.dq);
    tau = widen (narrow j.tau);
    t_mos = widen (narrow j.t_mos);
    t_coil = widen (narrow j.t_coil);
    err = j.err;
  }

  length-joint_bytes : (j : JointRaw Double) → length (joint_bytes j) ≡ 21
  length-joint_bytes j = omega (
    arith,
    length-append (pack_f32s floats (joint_values j)) (j.err ∷ []),
    length-pack_f32s floats (joint_values j),
  )

  -- The five values and the error byte at an offset.
  values_at :
      (whole : List ℕ) (off : ℕ) (j : JointRaw Double)
      → unpack_f32s floats whole off 5 ≡ map (λ v. widen (narrow v)) (joint_values j)
      → byte_at whole (off + 20) ≡ j.err
      → joint_at floats whole off ≡ rounded j
  unfolding joint_at unpack_f32s
  values_at whole off j e h = let start : off + 0 ≡ off = omega arith in ground (arith, start)

  joint_at-bytes :
      (before after : List ℕ) (off : ℕ) (j : JointRaw Double)
      → length before ≡ off
      → joint_at floats (before ++ joint_bytes j ++ after) off ≡ rounded j
  joint_at-bytes before after off j n =
      let values = pack_f32s floats (joint_values j) in
      let size = length-pack_f32s floats (joint_values j) in
      let whole = before ++ joint_bytes j ++ after in
      let grouped : before ++ values ++ (j.err ∷ [] ++ after) ≡ whole = simp append_assoc in
      let read : unpack_f32s floats whole off 5 ≡ map (λ v. widen (narrow v)) (joint_values j) =
        subst
          (λ (b : List ℕ).
            unpack_f32s floats b off 5 ≡ map (λ v. widen (narrow v)) (joint_values j))
          grouped
          (subst
            (λ (o : ℕ).
              unpack_f32s floats (before ++ values ++ (j.err ∷ [] ++ after)) o 5
              ≡ map (λ v. widen (narrow v)) (joint_values j))
            n (unpack-pack_f32s floats before (j.err ∷ [] ++ after) (joint_values j))) in
      let split : before ++ values ++ (j.err ∷ []) ++ after ≡ whole = simp append_assoc in
      let error : byte_at whole (off + 20) ≡ j.err =
        subst (λ (b : List ℕ). byte_at b (off + 20) ≡ j.err) split
          (at_offset (before ++ values) (j.err ∷ []) after (off + 20) 0 (off + 20)
            (omega (arith, length-append before values)) (omega arith)) in
      values_at whole off j read error

  joints_from-bytes :
      (before after : List ℕ) (joints : List (JointRaw Double)) (i : ℕ)
      → length before ≡ 4 + i * 21
      → joints_from floats (before ++ joints_bytes joints ++ after) (length joints) i
        ≡ map rounded joints
  unfolding joints_from
  joints_from-bytes before after [] i n = refl
  joints_from-bytes before after (j ∷ joints) i n =
      let this = joint_bytes j in
      let others = joints_bytes joints in
      let here : before ++ (this ++ others) ++ after ≡ before ++ this ++ (others ++ after) =
        simp append_assoc in
      let there : before ++ (this ++ others) ++ after ≡ before ++ this ++ others ++ after =
        simp append_assoc in
      ap₂ ◌∷◌
        (ap (λ (b : List ℕ). joint_at floats b (4 + i * 21)) here
          ∙ joint_at-bytes before (others ++ after) (4 + i * 21) j n)
        (ap (λ (b : List ℕ). joints_from floats b (length joints) (i + 1)) there
          ∙ joints_from-bytes (before ++ this) after joints (i + 1)
              (omega (arith, length-append before this, length-joint_bytes j)))

  length-joints_bytes :
      (joints : List (JointRaw Double)) → length (joints_bytes joints) ≡ 21 * length joints
  length-joints_bytes [] = refl
  length-joints_bytes (j ∷ joints) = omega (
    arith,
    length-append (joint_bytes j) (joints_bytes joints),
    length-joint_bytes j,
    length-joints_bytes joints,
  )

  abbrev pub status_bytes : ℕ → ℕ → List (JointRaw Double) → List ℕ → List ℕ
  status_bytes flags seq joints fault =
      pack_u16le flags ++ pack_u16le seq ++ joints_bytes joints ++ fault

  length-status_bytes :
      (flags seq fault : ℕ) (joints : List (JointRaw Double))
      → length (status_bytes flags seq joints (pack_u16le fault)) ≡ 6 + 21 * length joints
  length-status_bytes flags seq fault joints = omega (
    arith,
    length-append (pack_u16le flags ++ pack_u16le seq ++ joints_bytes joints) (pack_u16le fault),
    length-append (pack_u16le flags ++ pack_u16le seq) (joints_bytes joints),
    length-append (pack_u16le flags) (pack_u16le seq),
    length-joints_bytes joints,
    length-pack_u16le flags,
    length-pack_u16le seq,
    length-pack_u16le fault,
  )

  -- A status is read field by field.
  status_of_fields :
      (payload : List ℕ) (flags seq fault : ℕ) (joints : List (JointRaw Double))
      → read_u16le payload 0 ≡ flags
      → read_u16le payload 2 ≡ seq
      → joints_from floats payload 7 0 ≡ joints
      → status_of floats payload fault ≡ (record {
        flags = flags;
        seq = seq;
        mode = flags / 2 ^ 6 % 2 ^ 3;
        flag_names = names_from flags 6 0;
        joints = joints;
        joint_fault = fault;
      })
  unfolding status_of
  status_of_fields payload flags seq fault joints ef es ej = rw (ef, es, ej)

  -- A status frame of seven joints, as firmware 1.5.0 sends it, is decoded to its flags, sequence
  -- number and fault bitmap, and to its joints, each value rounded to single precision; the mode and
  -- the flag names are those of the flags.
  pub decode-status_bytes :
      (flags seq fault : ℕ) (joints : List (JointRaw Double))
      → flags < 2 ^ 16
      → seq < 2 ^ 16
      → fault < 2 ^ 16
      → length joints ≡ 7
      → decode_status floats (status_bytes flags seq joints (pack_u16le fault))
        ≡ some (record {
          flags = flags;
          seq = seq;
          mode = flags / 2 ^ 6 % 2 ^ 3;
          flag_names = names_from flags 6 0;
          joints = map rounded joints;
          joint_fault = fault;
        })
  decode-status_bytes flags seq fault joints hf hs hj n =
      let f = pack_u16le flags in
      let s = pack_u16le seq in
      let js = joints_bytes joints in
      let whole = f ++ s ++ js ++ pack_u16le fault in
      let size : length whole ≡ 153 = omega (arith, length-status_bytes flags seq fault joints) in
      let at_flags : [] ++ f ++ (s ++ js ++ pack_u16le fault) ≡ whole = simp append_assoc in
      let at_seq : f ++ s ++ (js ++ pack_u16le fault) ≡ whole = simp append_assoc in
      let at_fault : f ++ s ++ js ++ pack_u16le fault ++ [] ≡ whole = append-nil whole in
      let head : length (f ++ s) ≡ 4 =
        omega (arith, length-append f s, length-pack_u16le flags, length-pack_u16le seq) in
      let front : length (f ++ s ++ js) ≡ 151 =
        omega (arith, length-append (f ++ s) js, length-joints_bytes joints) in
      let read_fault : read_u16le whole 151 ≡ fault =
        subst (λ (b : List ℕ). read_u16le b 151 ≡ fault) at_fault
          (read-pack_u16 (f ++ s ++ js) [] 151 fault front hj) in
      let read_joints : joints_from floats whole 7 0 ≡ map rounded joints =
        subst (λ (k : ℕ). joints_from floats whole k 0 ≡ map rounded joints) n
          (joints_from-bytes (f ++ s) (pack_u16le fault) joints 0 (omega (arith, head))) in
      decode_long floats whole size
      ∙ ap (λ (v : ℕ). some (status_of floats whole v)) read_fault
      ∙ ap some (
          status_of_fields whole flags seq fault (map rounded joints)
            (subst (λ (b : List ℕ). read_u16le b 0 ≡ flags) at_flags
              (read-pack_u16 [] (s ++ js ++ pack_u16le fault) 0 flags refl hf))
            (subst (λ (b : List ℕ). read_u16le b 2 ≡ seq) at_seq
              (read-pack_u16 f (js ++ pack_u16le fault) 2 seq (length-pack_u16le flags) hs))
            read_joints)
