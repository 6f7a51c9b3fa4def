-- ===== src/Errors/Table.antt =====
-- The texts of the firmware's error codes: `build_err_text` and `build_err_code_text` of
-- `src/errors.cpp`, as lists in the order of the source.
use Prim.Native.String.{String}
use litearm_cpp.Base.{ℕ, List, [], ◌∷◌, Option, none, some, ◌==◌, ◌&&◌, if◌then◌else◌}

-- An entry of the table of a command's own codes.
pub record Registered : Type 0 where
  pub command : ℕ
  pub code : ℕ
  pub text : String

-- An entry of the table that holds for every command.
pub record General : Type 0 where
  pub code : ℕ
  pub text : String

unfoldable pub find_text : List Registered → ℕ → ℕ → Option String
find_text [] command code = none
find_text (entry ∷ table) command code =
    if (entry.command == command) && (entry.code == code)
    then some entry.text
    else find_text table command code

unfoldable pub find_code_text : List General → ℕ → Option String
find_code_text [] code = none
find_code_text (entry ∷ table) code =
    if entry.code == code then some entry.text else find_code_text table code

abbrev entry : ℕ → ℕ → String → Registered
entry command code text = record { command = command; code = code; text = text }

abbrev general : ℕ → String → General
general code text = record { code = code; text = text }

abbrev pub err_code_text : List General
err_code_text =
    general 0x00 "固件没有实现这条命令 (default 分支, 无任何副作用)"
    ∷ general 0x01 "载荷长度不足"
    ∷ general 0x02 "字段非法 (非有限值 / 越界 / idx 或 item 非法)"
    ∷ general 0x03 "被拒 —— 逐命令而异 (常见: 未使能 / EMERGENCY 锁存 / 新限位关不住在途目标)"
    ∷ general 0x04 "被拒 —— 逐命令而异 (常见: 须先失能 / 零重力中 / 状态机不允许)"
    ∷ general 0x05 "忙 —— 通道被占或参数保存中, 稍后重试"
    ∷ general 0x06 "锁存 —— 须先 reset / clear_faults"
    ∷ general 0x07 "掩码不符, 或 CMODE 补写预算耗尽 (重发无用)"
    ∷ []

abbrev pub err_text : List Registered
err_text =
    entry 0x01 0x01 "载荷长度不足 (需 4xN+4 字节)"
    ∷ entry 0x01 0x02
        "含非有限值, 或 sp 越界 —— sp 是 0..1 的小数倍率 (传 30 想表达 30% 属单位陷阱, 固件显式拒而不静默 clamp 成 100%)"
    ∷ entry 0x01 0x03 "未使能, 或 EMERGENCY 锁存 (ctrl_accept_move_j)"
    ∷ entry 0x01 0x04 "零重力(拖动示教)进行中 —— 须显式 zero_g off 退出, 固件不隐式退出"
    ∷ entry 0x01 0x06 "掉线刚性持位锁存 (drop_hold) 中 —— 须先 reset/clear_faults"
    ∷ entry 0x07 0x01 "载荷长度不足 (需 4xN+4 字节)"
    ∷ entry 0x07 0x02 "含非有限值, 或 sp 越界 (同 0x01 的 0..1 小数倍率约定)"
    ∷ entry 0x07 0x03 "未使能, 或 EMERGENCY 锁存 (ctrl_accept_move_j_sync)"
    ∷ entry 0x07 0x04 "零重力(拖动示教)进行中"
    ∷ entry 0x07 0x06 "掉线刚性持位锁存 (drop_hold) 中 —— 须先 reset/clear_faults"
    ∷ entry 0x02 0x01 "载荷长度不足 (需 28 字节: pose[6] + sp)"
    ∷ entry 0x02 0x02 "位姿含非有限值, 或 sp 越界 (0..1 小数倍率)"
    ∷ entry 0x02 0x03
        "**二义码, 两处发射点语义不同**: 1) dispatch 的「未使能 / EMERGENCY 锁存」 2) 后台 IK 失败 —— 原注释「不可达 / 解非法」。上位机无法从本码区分两者, 只能按「这条 move_p 没成立」处置 (不要据此判失能)"
    ∷ entry 0x02 0x04 "零重力(拖动示教)进行中"
    ∷ entry 0x02 0x05 "IK 后台通道忙 (已有一次后台求解在途)"
    ∷ entry 0x3a 0x01 "载荷长度不足 (需 28 字节)"
    ∷ entry 0x3a 0x02 "位姿含非有限值, 或 sp 越界 (0..1 小数倍率)"
    ∷ entry 0x3a 0x03 "未使能 (笛卡尔门禁 cart_gate_ok)"
    ∷ entry 0x3a 0x04 "零重力中 (门禁) 或 状态机不允许 —— RECV 会话未收尾时不许插队"
    ∷ entry 0x3a 0x06 "掉线刚性持位锁存 (drop_hold) 中 —— 须先 reset/clear_faults"
    ∷ entry 0x3b 0x01 "载荷长度不足 (需 52 字节: 途经点 + 终点 + sp)"
    ∷ entry 0x3b 0x02 "位姿含非有限值, 或 sp 越界 (0..1 小数倍率)"
    ∷ entry 0x3b 0x03 "未使能 (笛卡尔门禁)"
    ∷ entry 0x3b 0x04 "零重力中 (门禁) 或 状态机不允许 —— RECV 会话未收尾时不许插队"
    ∷ entry 0x3b 0x06 "掉线刚性持位锁存 (drop_hold) 中"
    ∷ entry 0x3c 0x01 "载荷长度不足 (需 5 字节: 点数 n + sp)"
    ∷ entry 0x3c 0x02 "sp 非有限/越界, 或点数 n 越界 (须 1..CART_MAX_GOAL=32)"
    ∷ entry 0x3c 0x03 "未使能"
    ∷ entry 0x3c 0x04 "零重力中 或 状态机不允许 —— 只有 IDLE 能开新会话 (含 RECV 重入)"
    ∷ entry 0x3c 0x06 "掉线刚性持位锁存 (drop_hold) 中"
    ∷ entry 0x3d 0x01 "载荷长度不足 (需 25 字节: idx + pose[6])"
    ∷ entry 0x3d 0x02 "位姿含非有限值 (dispatch), 或 idx 越界 (cart_req_add)"
    ∷ entry 0x3d 0x03 "未使能"
    ∷ entry 0x3d 0x04 "零重力中, 或 非 RECV 态, 或该 idx 已 ADD 过 (去重)"
    ∷ entry 0x3d 0x06 "掉线刚性持位锁存 (drop_hold) 中"
    ∷ entry 0x3e 0x03 "未使能 (笛卡尔门禁)"
    ∷ entry 0x3e 0x04 "零重力中 (门禁) 或 状态机不允许 —— 非 RECV 态, 或点名不满"
    ∷ entry 0x3e 0x06 "掉线刚性持位锁存 (drop_hold) 中"
    ∷ entry 0x03 0x01 "载荷长度不足 (需 8xN 字节; 带 tau_ff 时 12xN)"
    ∷ entry 0x03 0x02 "q/dq(/tau_ff) 含非有限值"
    ∷ entry 0x03 0x03 "未使能, 或 EMERGENCY 锁存 (ctrl_accept_move_js)"
    ∷ entry 0x03 0x04 "零重力(拖动示教)进行中"
    ∷ entry 0x03 0x06 "掉线刚性持位锁存 (drop_hold) 中"
    ∷ entry 0x04 0x01 "载荷长度不足 (需 21 字节)"
    ∷ entry 0x04 0x02 "idx 越界, 或 q/dq/kp/kd/tau 含非有限值"
    ∷ entry 0x04 0x03 "未使能, 或 EMERGENCY 锁存 (ctrl_accept_move_mit)"
    ∷ entry 0x04 0x04 "零重力(拖动示教)进行中"
    ∷ entry 0x04 0x06 "掉线刚性持位锁存 (drop_hold) 中"
    ∷ entry 0x05 0x01 "载荷长度不足 (需 20xN 字节)"
    ∷ entry 0x05 0x02 "q/dq/kp/kd/tau 含非有限值"
    ∷ entry 0x05 0x03 "未使能, 或 EMERGENCY 锁存 (ctrl_accept_move_mit_all)"
    ∷ entry 0x05 0x04 "零重力(拖动示教)进行中"
    ∷ entry 0x05 0x06 "掉线刚性持位锁存 (drop_hold) 中"
    ∷ entry 0x06 0x01 "载荷长度不足 (需 1 字节: on)"
    ∷ entry 0x06 0x02 "拒绝: EMERGENCY 锁存 (进入与退出都拒), 或进入时未使能 (退出 on=0 幂等, 未使能也收)"
    ∷ entry 0x2a 0x03 "未使能 (dispatch 前置) 或 EMERGENCY 锁存 (ctrl_accept_move_j)"
    ∷ entry 0x2a 0x04 "零重力(拖动示教)进行中"
    ∷ entry 0x2a 0x06 "掉线刚性持位锁存 (drop_hold) 中"
    ∷ entry 0x10 0x08
        "**未激活(未授权)—— 重发无用, 无旁路**。固件 ctrl_enable() 的第一条判据就是 !license_is_activated(), 故本码说的是「这台臂有没有被授权」, 而不是「现在能不能使能」—— 后者优先于其余所有码。补救: 用 Arm.license() 查 state, 再拿厂商签发的凭据走 Arm.activate()"
    ∷ entry 0x10 0x03 "可重试 —— 电机反馈未齐 / CMODE 首写 (含 CMODE 回读不良已补写, 重发即可)"
    ∷ entry 0x10 0x06
        "**锁存, 须先 RESET** —— EMERGENCY 或 joint_fault 非 0 (重发无用)。码值虽与运动命令的 0x06 相同, 但判据不同 —— 本档只看 EMERGENCY / joint_fault, 不判掉线刚性持位锁存"
    ∷ entry 0x10 0x07 "部分轴 CMODE 补写预算耗尽仍未进 MIT —— **重发无用**, 须现场排查"
    ∷ entry 0x15 0x01 "载荷必须为空 (本命令不吃参数)"
    ∷ entry 0x15 0x02 "ROM 系统 bootloader 向量表无效 —— 跳过去也起不来, 故当场拒"
    ∷ entry 0x15 0x03 "使能中, 或使能在途 (enable_pending) —— 跳转会停 TIM3, 电机 100ms 后松开, 有重力负载则下垂"
    ∷ entry 0x3f 0x01 "载荷长度不足 (需 >=28 字节) —— 注意判据是 < 28, 更长的载荷会被接受并静默忽略尾部"
    ∷ entry 0x3f 0x02
        "**聚合档, 必须回查 0x2F 才能定性** —— flags 保留位非 0 / 已经激活过 / MAC 不符 / 固件编译进来的密钥非法 / 写或读回失败, 全折叠成本码。其中「已经激活过」意味着设备可能其实已经解锁 (例如上一条 ACK 被丢掉后重发) —— 把它当失败会让产线重复返工, 故不要据本码判机器没激活"
    ∷ entry 0x3f 0x04 "已武装 (使能中或使能在途) 须先失能 —— 与 0x25 同语义: 写 flash 期间电机不得在无监督下保持使能"
    ∷ entry 0x3f 0x05 "flash 忙 (main 正在整扇区保存参数) —— 稍后重试即可"
    ∷ entry 0x20 0x01 "载荷长度不足 (需 1 字节: mode)"
    ∷ entry 0x21 0x01 "载荷长度不足 (需 1 字节: 百分比)"
    ∷ entry 0x42 0x01 "载荷长度不足 (需 52 字节: pose[6] + seed[7])"
    ∷ entry 0x42 0x02 "pose 或 seed 含非有限值"
    ∷ entry 0x42 0x05 "忙 —— 已有一次后台 IK 在途 (成功登记时不即时应答, 等 RSP_IK)"
    ∷ entry 0x49 0x05 "忙 —— 已有一次 kin_bench 在途"
    ∷ entry 0x22 0x01 "载荷长度不足 (需 13 字节: idx + kp + kd + tau_max)"
    ∷ entry 0x22 0x02 "idx 越界, 或 kp/kd/tau_max 非法 (NaN 或 kp<0 / kd<0 / tau_max<=0)"
    ∷ entry 0x23 0x01 "载荷长度不足 (需 9 字节: idx + q_min + q_max)"
    ∷ entry 0x23 0x02 "数值非法 (NaN / q_min>=q_max), 或 idx 越界, 或放宽请求 (固件只许收窄, 照编译期默认值取交集)"
    ∷ entry 0x23 0x03 "新限位关不住在途目标 —— 武装中且该轴的当前参考/在途轨迹目标落在新区间之外; 笛卡尔在途 (state != IDLE) 或同步轨迹在途时一律回本码"
    ∷ entry 0x24 0x01 "载荷长度不足 (需 1 字节: idx)"
    ∷ entry 0x24 0x02 "idx 越界"
    ∷ entry 0x25 0x04 "武装中 (enabled 或 enable_pending 在途) —— 须先失能。两处都会发本码: 受理时, 以及异步擦写执行前对武装态的复查"
    ∷ entry 0x25 0x03 "**异步保存失败** —— flash_store_save() 返回 false。与 0x04 不同, 它在受理之后才到达 (main 循环里执行)"
    ∷ entry 0x36 0x04 "武装中 (enabled 或 enable_pending 在途) —— 须先失能"
    ∷ entry 0x36 0x05 "flash 参数保存进行中 —— 忙, 稍后重试 (交错会毁参数)"
    ∷ entry 0x36 0x03 "flash 失效化失败 —— 恢复出厂未生效 (RAM 与 flash 都保持旧值)"
    ∷ entry 0x26 0x01 "载荷长度不足 (需 1 + 4xDOF 字节)"
    ∷ entry 0x26 0x02 "item 越界 (1..15), 或值非法 (NaN / item>=9 的符号契约不符: fv>=0, fc0>=0, fc1<=0)"
    ∷ entry 0x26 0x04 "[仅 feat/hyy-model-import 分支] item 7 (gravity_scale) 武装态拒 —— 须先失能"
    ∷ entry 0x27 0x01 "载荷长度不足 (需 4 字节: ff_mask)"
    ∷ entry 0x28 0x01 "载荷长度不足 (需 6 字节: item + sub + f32)"
    ∷ entry 0x28 0x02
        "item 越界 (合法区间是 1..8 与 10..18; item 9 已保留给 0x2C 读 ff_mask, 写它走 default 同样回本码), 或值非法 —— 只有三类: NaN、item 5/6 的 sub>2、item 7 的 v 不属于 {0,1,2}。幅值一律静默钳制只对有 clamp 的那些 item 成立: 它们过 ff_clamp() 后照样 return true 回 ACK。例: payload_mass 钳 [0,20] => set_payload(-5) 回 ACK 并把质量静默钳成 0, 不是被拒"
    ∷ entry 0x28 0x04 "[仅 feat/hyy-model-import 分支] item 6 (gravity 向量) 武装态拒"
    ∷ entry 0x2b 0x01 "载荷长度不足 (需 1 字节: item)"
    ∷ entry 0x2b 0x02 "item 越界 (须 1..15)"
    ∷ entry 0x2c 0x01 "载荷长度不足 (需 2 字节: item + sub)"
    ∷ entry 0x2c 0x02 "item 越界 (须 1..18)"
    ∷ entry 0x31 0x02 "preset 非法 (须 0..2), 或载荷长度不足 (两者共用本码)"
    ∷ entry 0x30 0x01 "载荷长度不足 (需 1 + 4xBODY_PARAMS 字节)"
    ∷ entry 0x30 0x02 "body_idx 越界, 或 staging 失败 (数值非法)"
    ∷ entry 0x32 0x01 "载荷长度不足 (需 2 字节: expected_mask)"
    ∷ entry 0x32 0x04 "武装中 —— 须先失能 (门控排在掩码校验之前)"
    ∷ entry 0x32 0x07 "**模型掩码不符** —— 产线最常见故障, 与「数值非法」完全不同"
    ∷ entry 0x32 0x02 "dyn_model_commit 失败"
    ∷ entry 0x33 0x01 "载荷长度不足 (需 4xJM_N 字节)"
    ∷ entry 0x33 0x02 "staging 失败 (数值非法)"
    ∷ entry 0x34 0x01 "载荷长度不足 (需 1 字节: body_idx)"
    ∷ entry 0x34 0x02 "body_idx 越界"
    ∷ entry 0x37 0x04 "武装中 —— 须先失能"
    ∷ entry 0x39 0x01 "载荷长度不足 (需 4xDOF 字节: q[7])"
    ∷ entry 0x2d 0x01 "载荷长度不足 (需 4 字节: n_ticks)"
    ∷ entry 0x2d 0x02 "超容量 —— 请求的拍数超过 LOG_MAX_SAMPLES"
    ∷ entry 0x2e 0x01 "载荷长度不足 (需 4 字节: offset)"
    ∷ []
