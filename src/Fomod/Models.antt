-- ===== src/Fomod/Models.antt =====
-- sky_claw/local/fomod/models.py, and the evaluation of conditions on them.
use sky_claw_gravity.Prelude.{
  Bool, List, Option, String, [], false, get_or, true, ℤ, ◌&&◌, ◌++◌, ◌==◌, ◌||◌, ◌∷◌, nat_eq,
  string_eq,
}
use sky_claw_gravity.Dict
use sky_claw_gravity.Dict.{Dict}

pub data GroupType : Type 0 where
  select_exactly_one select_at_most_one select_at_least_one select_all select_any : GroupType

unfoldable pub is_select_all : GroupType → Bool
is_select_all select_all = true
is_select_all _ = false

pub data FileState : Type 0 where
  active inactive missing : FileState

pub record FlagDependency : Type 0 where
  pub flag : String
  pub value : String

pub record FileDependency : Type 0 where
  pub file : String
  pub state : FileState

pub data Operator : Type 0 where
  and_op or_op : Operator

-- a composite of its operator, flag conditions, file conditions and nested composites
mutual
  pub data CompositeDependency : Type 0 where
    composite :
        Operator
        → List FlagDependency
        → List FileDependency
        → CompositeDependencies
        → CompositeDependency

  pub data CompositeDependencies : Type 0 where
    nil : CompositeDependencies
    cons : CompositeDependency → CompositeDependencies → CompositeDependencies

pub record FileInstall : Type 0 where
  pub source : String
  pub destination : String
  pub priority : ℤ

pub record ConditionFlag : Type 0 where
  pub name : String
  pub value : String

pub record Plugin : Type 0 where
  pub name : String
  pub description : String
  pub image : String
  pub condition_flags : List ConditionFlag
  pub files : List FileInstall
  pub type_descriptor : String

pub record Group : Type 0 where
  pub name : String
  pub group_type : GroupType
  pub plugins : List Plugin

pub record InstallStep : Type 0 where
  pub name : String
  pub visibility : Option CompositeDependency
  pub groups : List Group

pub record ConditionalPattern : Type 0 where
  pub conditions : CompositeDependency
  pub files : List FileInstall

pub record FomodConfig : Type 0 where
  pub module_name : String
  pub required_files : List FileInstall
  pub install_steps : List InstallStep
  pub conditional_installs : List ConditionalPattern

-- `flags.get(fd.flag, "") == fd.value`
unfoldable pub flag_holds : Dict String String → FlagDependency → Bool
flag_holds flags fd = get_or (Dict.get flags fd.flag) "" == fd.value

unfoldable pub flag_results : Dict String String → List FlagDependency → List Bool
unfolding flag_holds
flag_results flags [] = []
flag_results flags (fd ∷ fds) = flag_holds flags fd ∷ flag_results flags fds

-- each file condition counts as met
unfoldable pub file_results : List FileDependency → List Bool
file_results [] = []
file_results (_ ∷ fds) = true ∷ file_results fds

unfoldable pub all : List Bool → Bool
all [] = true
all (b ∷ bs) = b && all bs

unfoldable pub any : List Bool → Bool
any [] = false
any (b ∷ bs) = b || any bs

-- the end of `_evaluate_conditions`
unfoldable pub combine : Operator → List Bool → Bool
unfolding all any
combine op [] = true
combine and_op (b ∷ bs) = all (b ∷ bs)
combine or_op (b ∷ bs) = any (b ∷ bs)

-- `_evaluate_conditions`
unfoldable mutual
  unfolding flag_results file_results combine

  pub evaluate : CompositeDependency → Dict String String → Bool
  evaluate (composite op flag_deps file_deps nested) flags =
      combine op
        (flag_results flags flag_deps ++ (file_results file_deps ++ evaluate_all nested flags))

  pub evaluate_all : CompositeDependencies → Dict String String → List Bool
  evaluate_all nil flags = []
  evaluate_all (cons c cs) flags = evaluate c flags ∷ evaluate_all cs flags
