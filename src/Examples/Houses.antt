-- ===== src/Examples/Houses.antt =====
-- Houses: the theorems at concrete ones.
use teachserver.Base.{◌≡◌, refl, ◌⊎◌, none, [], ◌∷◌, arith}
use teachserver.Protocol.Command.{st_build_house_update}
use teachserver.House.{Node, MakeHouse, update}
use teachserver.House.Nodes.{IsOwner, Moved, update-IsOwner}
use teachserver.House.Group.{Group, send_to_other_student}
use teachserver.House.Send.{send_to_other_student-faults}
use teachserver.Examples.{mailbox, from}

abbrev picture : Node
picture = record { client_fd = 10; node_id = 1; x = 0; y = 0; angle = 0; zoom = 0; name = [] }

abbrev house : MakeHouse
house = record { node_map = (1, picture) ∷ []; layer_list = 1 ∷ 2 ∷ 3 ∷ [] }

update-IsOwner_example :
    (((update house 10 1 4 5 6 7).1 ≡ 0) × Moved house (update house 10 1 4 5 6 7).0 10 1 4 5 6 7)
    ⊎ ((update house 10 1 4 5 6 7 ≡ (house, 1)) × ¬ IsOwner house 10 1)
update-IsOwner_example = update-IsOwner house 10 1 4 5 6 7

abbrev group : Group
group = record { group_name = []; make_house = house; student_map = (10, 521) ∷ (11, 522) ∷ [] }

send_to_other_student-faults_example :
    send_to_other_student 1 st_build_house_update group
      (from 10 (mailbox 28 0 (λ i. 0) (2 ∷ []) []))
    ≡ none
send_to_other_student-faults_example =
    send_to_other_student-faults 1 2 st_build_house_update group
      (from 10 (mailbox 28 0 (λ i. 0) (2 ∷ []) [])) [] 1 11 522 refl (ground arith) (ground arith)
      refl (ground arith)
