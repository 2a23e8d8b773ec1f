-- ===== src/Cmd/Tests.antt =====
-- cmd/luimagen/: the command line of the quickstart's table.
use luima.Prelude.{true, false, List, [], ◌∷◌, ◌≡◌, refl, arith, Text, codes, text_eq}
use luima.Luimagen.Runes.{after_prefix}
use luima.Luimagen.Table.{Field}
use luima.Luimagen.Sample.{disk, tools, gql, nothing, first_disk, disk-KeepsWrites}
use luima.Cmd.{
  split, set_options, set, set_flag, parse_flags, too_few, unknown_option, collected, refused, Flag,
  type_flag, field_flag, no_options, main,
}
use luima.Cmd.RoundTrip.{IsPlainField, typed, set-typed}
use luima.Cmd.Resolves.{IsEnd, main-IsEnd}

runs : Unit {0}
unfolding split set_options set set_flag parse_flags after_prefix text_eq codes
runs = tt

set-slice :
    set [] (codes "Projects:[]string")
    ≡ collected (
        record { name = codes "Projects"; go_type = codes "[]string"; pk = false; column = [] }
        ∷ [])
unfolding runs
set-slice = refl

set-short : set [] (codes "Name") ≡ refused (too_few (codes "Name"))
unfolding runs
set-short = refl

set-unknown :
    set [] (codes "Name:string:key")
    ≡ refused (unknown_option (codes "Name:string:key") (codes "key"))
unfolding runs
set-unknown = refl

abbrev personal_id : Field
personal_id = record {
  name = codes "PersonalID";
  go_type = codes "string";
  pk = true;
  column = codes "pid";
}

personal_id-IsPlain : IsPlainField personal_id
unfolding codes
personal_id-IsPlain = omega arith

set-typed_example : set [] (typed false personal_id) ≡ collected (personal_id ∷ [])
set-typed_example = set-typed [] personal_id false personal_id-IsPlain

abbrev args : List (Flag × Text)
args =
    (type_flag, codes "User")
    ∷ ((field_flag, codes "ID:string:pk") ∷ ((field_flag, codes "Name:string") ∷ []))

main-IsEnd_example :
    IsEnd disk tools gql nothing nothing
      (parse_flags no_options args)
      first_disk
      (main disk tools gql nothing nothing args first_disk)
main-IsEnd_example = main-IsEnd disk tools gql nothing nothing args first_disk disk-KeepsWrites
