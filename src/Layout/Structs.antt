-- ===== src/Layout/Structs.antt =====
-- protocol.h: the packed structures behind the head of a message, field by field in the order of the
-- source. A float is its 32 bits.
use teachserver.Base.{ℕ, List, [], ◌∷◌}
use teachserver.Layout.{Field, text, word, skip}

abbrev pub s_login : ℕ → List ℕ → List ℕ → List Field
s_login type username password = word type ∷ text 20 username ∷ text 20 password ∷ []

abbrev pub s_login_out_result : ℕ → List ℕ → List Field
s_login_out_result succeed message = word succeed ∷ text 50 message ∷ []

abbrev pub s_course_group : List ℕ → List ℕ → List Field
s_course_group grade_name course_group_name = text 20 grade_name ∷ text 20 course_group_name ∷ []

abbrev pub s_get_course_db : List ℕ → List ℕ → List ℕ → ℕ → ℕ → ℕ → ℕ → ℕ → List Field
s_get_course_db grade_name group_name course_name language art community health science =
    text 20 grade_name
    ∷ text 20 group_name
    ∷ text 20 course_name
    ∷ word language
    ∷ word art
    ∷ word community
    ∷ word health
    ∷ word science
    ∷ []

abbrev pub s_get_grade_db : List ℕ → List Field
s_get_grade_db grade_name = text 20 grade_name ∷ []

abbrev pub s_get_class_db : List ℕ → List Field
s_get_class_db class_name = text 20 class_name ∷ []

abbrev pub s_get_class_room_db : List ℕ → List Field
s_get_class_room_db class_room_name = text 20 class_room_name ∷ []

abbrev pub s_selected_class_room : ℕ → ℕ → List Field
s_selected_class_room classroom_id client_type = word classroom_id ∷ word client_type ∷ []

abbrev pub s_course_item : List ℕ → List ℕ → List Field
s_course_item course_name item_name = text 20 course_name ∷ text 20 item_name ∷ []

abbrev pub s_login_out_class_room : ℕ → List ℕ → List ℕ → List ℕ → List Field
s_login_out_class_room type teacher_name class_name class_room_name =
    word type ∷ text 20 teacher_name ∷ text 20 class_name ∷ text 20 class_room_name ∷ []

abbrev pub s_student_detail : ℕ → List ℕ → List Field
s_student_detail student_id student_name = word student_id ∷ text 20 student_name ∷ []

abbrev pub s_get_student_detail_info :
    List ℕ
    → List ℕ
    → List ℕ
    → List ℕ
    → List ℕ
    → List ℕ
    → List ℕ
    → List ℕ
    → List ℕ
    → List ℕ
    → ℕ
    → List Field
s_get_student_detail_info number first_name last_name sex school_name grade_name class_name account
      st_first_name st_last_name picture_id =
    text 20 number
    ∷ text 20 first_name
    ∷ text 20 last_name
    ∷ text 10 sex
    ∷ text 20 school_name
    ∷ text 20 grade_name
    ∷ text 20 class_name
    ∷ text 20 account
    ∷ skip 20
    ∷ text 20 st_first_name
    ∷ text 20 st_last_name
    ∷ word picture_id
    ∷ []

abbrev pub s_get_all_student_info : ℕ → List ℕ → List ℕ → List Field
s_get_all_student_info student_id pic_name student_name =
    word student_id ∷ text 128 pic_name ∷ text 20 student_name ∷ []

abbrev pub s_get_teacher_info : List ℕ → List ℕ → List Field
s_get_teacher_info teacher_name pic_name = text 20 teacher_name ∷ text 128 pic_name ∷ []

abbrev pub s_puzzle_update_pic : ℕ → ℕ → List Field
s_puzzle_update_pic student_id pic_idx = word student_id ∷ word pic_idx ∷ []

abbrev pub course_item_key_info_req : List ℕ → List Field
course_item_key_info_req course_item = text 64 course_item ∷ []

abbrev pub course_item_key_info_rsp : List ℕ → List Field
course_item_key_info_rsp keys = text 512 keys ∷ []

abbrev pub make_house_update : ℕ → ℕ → ℕ → ℕ → ℕ → List Field
make_house_update node_id x y zoom angle =
    word node_id ∷ word x ∷ word y ∷ word zoom ∷ word angle ∷ []

abbrev pub make_house_change_layer : ℕ → ℕ → List Field
make_house_change_layer node_id layer = word node_id ∷ word layer ∷ []

abbrev pub make_house_add_pic : ℕ → List ℕ → List Field
make_house_add_pic node_id picture_name = word node_id ∷ text 40 picture_name ∷ []

abbrev pub make_house_del_pic : ℕ → List ℕ → List Field
make_house_del_pic node_id picture_name = word node_id ∷ text 40 picture_name ∷ []

-- The structures of messages that are passed on as they are, or of which no handler makes use.
abbrev pub s_scene_end : ℕ → List Field
s_scene_end type = word type ∷ []

abbrev pub s_db_count : ℕ → List Field
s_db_count count = word count ∷ []

abbrev pub s_get_course_item : List ℕ → List Field
s_get_course_item course_name = text 20 course_name ∷ []

abbrev pub send_student_status_req : ℕ → ℕ → List Field
send_student_status_req student_id status = word student_id ∷ word status ∷ []

abbrev pub s_leave_early : ℕ → List Field
s_leave_early student_id = word student_id ∷ []

abbrev pub s_puzzle_type : ℕ → List Field
s_puzzle_type type = word type ∷ []

abbrev pub s_puzzle_size : ℕ → ℕ → List Field
s_puzzle_size row_count column_count = word row_count ∷ word column_count ∷ []

abbrev pub s_control_level : ℕ → List Field
s_control_level level = word level ∷ []

abbrev pub s_build_house_cai_hong_xiao_wu : List ℕ → List Field
s_build_house_cai_hong_xiao_wu words = text 12 words ∷ []

abbrev pub s_build_house_set_stu_group : ℕ → ℕ → List Field
s_build_house_set_stu_group group_index student_count = word group_index ∷ word student_count ∷ []

abbrev pub s_build_house_student_list : List ℕ → List Field
s_build_house_student_list student_name = text 10 student_name ∷ []

abbrev pub s_puzzle_icon_status : ℕ → List Field
s_puzzle_icon_status status = word status ∷ []

abbrev pub s_jigsaw_init_data : List ℕ → ℕ → ℕ → ℕ → List Field
s_jigsaw_init_data picture_path stencil_id row_count column_count =
    text 512 picture_path ∷ word stencil_id ∷ word row_count ∷ word column_count ∷ []

abbrev pub house_number : ℕ → List Field
house_number num = word num ∷ []

abbrev pub house_item_info : List ℕ → ℕ → ℕ → ℕ → ℕ → ℕ → List Field
house_item_info picture_name layer x y zoom angle =
    text 40 picture_name ∷ word layer ∷ word x ∷ word y ∷ word zoom ∷ word angle ∷ []
