-- ===== src/Regonfhc/Handlers.antt =====
-- lib/regonfhc.c: the functions by which the server changes and asks a regulator.
use regonf.Prelude.{ℕ, Bool, true, false, ◌&&◌, List, if◌then◌else◌}
use regonf.Prelude.Int.{ℤ, pos}
use regonf.CString.{codes, str_eq}
use regonf.Float.{FloatOps}
use regonf.Timef.{timespec}
use regonf.Acp.{Link}
use regonf.Reg.{StateReg, off, init, disable, busy, secure_touch}
use regonf.Regonfhc.{RegOnfHcEm, RegOnfHc, control_em}

-- Tests of a state against one constant
abbrev pub is_busy : StateReg → Bool
is_busy busy = true
is_busy _ = false

abbrev pub is_cooler : StateReg → Bool
is_cooler StateReg.cooler = true
is_cooler _ = false

abbrev pub is_heater : StateReg → Bool
is_heater StateReg.heater = true
is_heater _ = false

enabled_state : StateReg → Bool
enabled_state disable = false
enabled_state off = false
enabled_state _ = true

-- REG_EM_MODE_COOLER_STR, REG_EM_MODE_HEATER_STR and REG_EM_MODE_BOTH_STR
abbrev pub mode_cooler : List ℕ
mode_cooler = codes "cooler"

abbrev pub mode_heater : List ℕ
mode_heater = codes "heater"

abbrev pub mode_both : List ℕ
mode_both = codes "both"

module _ {F : Type 0} where
  unfoldable pub enable : RegOnfHc F → RegOnfHc F
  enable item = record item { state = init }

  unfoldable pub disable_reg : RegOnfHc F → RegOnfHc F
  disable_reg item = record item { state = disable }

  unfoldable pub get_enabled : RegOnfHc F → Bool
  unfolding enabled_state
  get_enabled item = enabled_state item.state

  unfoldable pub set_cooler_delta : RegOnfHc F → F → RegOnfHc F
  set_cooler_delta item value = record item {
    cooler = record (item.cooler) { delta = value };
    state = if is_busy item.state && is_cooler item.state_r then init else item.state;
  }

  unfoldable pub set_heater_delta : RegOnfHc F → F → RegOnfHc F
  set_heater_delta item value = record item {
    heater = record (item.heater) { delta = value };
    state = if is_busy item.state && is_heater item.state_r then init else item.state;
  }

  unfoldable pub set_goal : RegOnfHc F → F → RegOnfHc F
  set_goal item value = record item { goal = value }

  unfoldable pub set_change_gap : RegOnfHc F → ℤ → RegOnfHc F
  set_change_gap item value = record item { change_gap = timespec value (pos 0) }

  unfoldable pub secure_out_touch : RegOnfHc F → RegOnfHc F
  secure_out_touch item = record item { secure_out = secure_touch item.secure_out }

  -- the two stores to the flags `use`
  abbrev with_use : Bool → Bool → RegOnfHcEm F → RegOnfHcEm F → RegOnfHc F → RegOnfHc F
  with_use use_heater use_cooler h c item = record item {
    heater = record h { use_em = use_heater };
    cooler = record c { use_em = use_cooler };
    state = if is_busy item.state then init else item.state;
  }

module _ {F W : Type 0} ⦃float : FloatOps F⦄ ⦃link : Link F W⦄ where
  unfoldable pub set_em_mode : RegOnfHc F → List ℕ → W → RegOnfHc F × W
  set_em_mode item value w =
      let (h, w1) = control_em item.heater float.zero_f w in
      let (c, w2) = control_em item.cooler float.zero_f w in
      let (c', w3) = control_em item.cooler float.zero_f w1 in
      if str_eq mode_cooler value
      then (with_use false true h item.cooler item, w1)
      else if str_eq mode_heater value
      then (with_use true false item.heater c item, w2)
      else if str_eq mode_both value
      then (with_use true true item.heater item.cooler item, w)
      else (with_use false false h c' item, w3)

  unfoldable pub set_heater_power : RegOnfHc F → F → W → RegOnfHc F × W
  set_heater_power item value w =
      let (h, w1) = control_em item.heater value w in
      (record item { heater = h; output = h.output }, w1)

  unfoldable pub set_cooler_power : RegOnfHc F → F → W → RegOnfHc F × W
  set_cooler_power item value w =
      let (c, w1) = control_em item.cooler value w in
      (record item { cooler = c; output = c.output }, w1)

  unfoldable pub turn_off : RegOnfHc F → W → RegOnfHc F × W
  turn_off item w =
      let (c, w1) = control_em item.cooler float.zero_f w in
      let (h, w2) = control_em item.heater float.zero_f w1 in
      (record item { state = off; cooler = c; heater = h }, w2)
