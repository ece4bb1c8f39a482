-- ===== src/Ovm/Manager.antt =====
-- ovm/src/property_executor.rs: the addresses of the deciders and quantifiers, and `DeciderManager`, which
-- builds properties at these addresses.
use plasma_rust_framework.Prelude.{ℕ, Option, none, some, List, [], ◌∷◌, get_elem?}
use plasma_rust_framework.Prelude.Bytes.{Bytes}
use plasma_rust_framework.Ovm.Types.{
  constant_bytes, constant_property, PropertyInputs, none_left, and_input, Property, property,
}

-- `DECIDER_LIST`
abbrev pub decider_list : List ℕ
decider_list =
    651838316724460289912481672091264403887692030880
    ∷ 48710521621161025230130662686428241310103994469
    ∷ 17975101971946328015890163598119167285141661983
    ∷ 614755644967773375950966540739465640473722487792
    ∷ 1411531133163927192559076436108360164437558442413
    ∷ 858302150223135800978667236337810753932203152628
    ∷ 291410836802814654682317717187419305063273303761
    ∷ 680571637083078730143273631032167379551225007969
    ∷ 1191311798588516292168271981717716185649869667608
    ∷ 1427638304781601150791361876151245272843246311340
    ∷ 1375685122891765839637075900662392435500633473061
    ∷ 463870485715436144308908369150539320242498235553
    ∷ 56600772208017783504595014796818264903262801758
    ∷ 959343872185454898727521720578738155055268851268
    ∷ 1022970891473218639121188831538443728270378631060
    ∷ 756760777078402243950879032154029687244524501539
    ∷ 1219127580525410251230064980527390821088498301991
    ∷ 518689334094642646313724294850679081795170285352
    ∷ 516047453025764164890444486320354901746066142440
    ∷ 490092207014508861268777122346686339855498682914
    ∷ 1002914840686417121020830615721518552817524270359
    ∷ 1326270357449977715688099712847138900830000103771
    ∷ 322225889431051312775323375961840824244566158006
    ∷ 1232240238295857054378355846433872208927932563196
    ∷ 833157594215372726935133385507669277163186100088
    ∷ 1249878070919073228003748869436822201016331383596
    ∷ 1243556283258455515306224769463836336422028574576
    ∷ 173395703418090002127513592720915236736404809216
    ∷ 1218569417576932415822919129098925074526650034154
    ∷ 52135345507692921134218439531241089476492333518 ∷ []

abbrev pub get_decider_address : ℕ → Option ℕ
get_decider_address i = get_elem? decider_list i

-- `Property::new` at the address of an index below 30.
unfoldable pub property_of : ℕ → PropertyInputs → Property
property_of i inputs = elim (get_decider_address i) [
  | some id ↦ property id inputs
  | none ↦ property 0 inputs
]

abbrev pub pair_of : Property → Property → PropertyInputs
pair_of left right =
    and_input (constant_property left) (and_input (constant_property right) none_left)

abbrev pub and_decider : Property → Property → Property
and_decider left right = property_of 0 (pair_of left right)

abbrev pub not_decider : Property → Property
not_decider p = property_of 1 (and_input (constant_property p) none_left)

abbrev pub or_decider : Property → Property → Property
or_decider left right = property_of 4 (pair_of left right)

abbrev pub quantifier_inputs : Property → Bytes → Property → PropertyInputs
quantifier_inputs quantifier name p =
    and_input (constant_property quantifier)
      (and_input (constant_bytes name) (and_input (constant_property p) none_left))

abbrev pub for_all_such_that_decider_raw : PropertyInputs → Property
for_all_such_that_decider_raw inputs = property_of 3 inputs

abbrev pub for_all_such_that_decider : Property → Bytes → Property → Property
for_all_such_that_decider quantifier name p =
    for_all_such_that_decider_raw (quantifier_inputs quantifier name p)

abbrev pub has_lower_nonce_decider : PropertyInputs → Property
has_lower_nonce_decider inputs = property_of 6 inputs

abbrev pub is_deprecated : PropertyInputs → Property
is_deprecated inputs = property_of 8 inputs

abbrev pub there_exists_such_that : PropertyInputs → Property
there_exists_such_that inputs = property_of 10 inputs

abbrev pub q_range : PropertyInputs → Property
q_range inputs = property_of 20 inputs

abbrev pub q_less_than : PropertyInputs → Property
q_less_than inputs = property_of 21 inputs

abbrev pub preimage_exists_decider : PropertyInputs → Property
preimage_exists_decider inputs = property_of 2 inputs

abbrev pub signed_by_decider : PropertyInputs → Property
signed_by_decider inputs = property_of 5 inputs

abbrev pub included_at_block_decider : PropertyInputs → Property
included_at_block_decider inputs = property_of 7 inputs

abbrev pub ownership : PropertyInputs → Property
ownership inputs = property_of 9 inputs

abbrev pub q_block : PropertyInputs → Property
q_block inputs = property_of 22 inputs

abbrev pub q_signed_by : PropertyInputs → Property
q_signed_by inputs = property_of 23 inputs

abbrev pub q_hash : PropertyInputs → Property
q_hash inputs = property_of 24 inputs

abbrev pub q_tx : PropertyInputs → Property
q_tx inputs = property_of 25 inputs

abbrev pub q_property : PropertyInputs → Property
q_property inputs = property_of 26 inputs

abbrev pub q_state_update : PropertyInputs → Property
q_state_update inputs = property_of 27 inputs
