-- ===== src/Protocol/Command.antt =====
-- protocol.h: the message types of `enum CommandType` and their numbers on the wire.
use teachserver.Base.{ℕ}

pub data CommandType : Type 0 where
  ct_test ct_change_scene st_change_scene ct_control_change_scene : CommandType
  st_control_change_scene ct_login ct_login_result ct_get_course_db_count : CommandType
  ct_get_course_db ct_set_course_group ct_get_course_group st_get_course_group : CommandType
  ct_get_course_item_count ct_get_course_item ct_logout ct_logout_reuslt : CommandType
  ct_get_class_room_db_count ct_get_class_room_db ct_get_grade_db_count : CommandType
  ct_get_grade_db ct_get_class_db_count ct_get_class_db ct_login_class_room : CommandType
  ct_logout_class_room ct_get_student_detail_info st_get_student_detail_info : CommandType
  ct_get_all_student_info_count ct_get_all_student_info ct_leave_early : CommandType
  st_leave_early ct_confirm_leave_early ct_get_teacher_info st_get_teacher_info : CommandType
  ct_lock_student st_lock_student ct_selected_class_room ct_course_finished : CommandType
  st_course_finished ct_get_db_record_finished st_get_db_record_finished : CommandType
  ct_get_course_item_key_info_req ct_get_course_item_key_info_rsp : CommandType
  st_send_student_status ct_common_playor_pause st_common_playor_pause : CommandType
  ct_common_resume st_common_resume ct_common_stop st_common_stop : CommandType
  ct_show_sprite_animation st_show_sprite_animation ct_show_sprite_control : CommandType
  st_show_sprite_control ct_control_level st_control_level ct_exercise_game_start : CommandType
  st_exercise_game_start ct_exercise_play st_exercise_play ct_exercise_pause : CommandType
  st_exercise_pause ct_exercise_stop st_exercise_stop ct_exercise_game_end : CommandType
  st_exercise_game_end ct_cartoon_game_start st_cartoon_game_start ct_cartoon_play : CommandType
  st_cartoon_play ct_cartoon_pause st_cartoon_pause ct_cartoon_stop st_cartoon_stop : CommandType
  ct_cartoon_game_end st_cartoon_game_end ct_build_house_cai_hong_xiao_wu : CommandType
  st_build_house_cai_hong_xiao_wu ct_build_house_cai_hong_gu : CommandType
  st_build_house_cai_hong_gu ct_build_house_xiao_guai_wu st_build_house_xiao_guai_wu : CommandType
  ct_build_house_mu_bu st_build_house_mu_bu ct_build_house_operator_demo : CommandType
  st_build_house_operator_demo ct_build_house_single_mode st_build_house_single_mode : CommandType
  ct_build_house_group_mode st_build_house_group_mode : CommandType
  ct_build_house_set_stu_group_count ct_build_house_set_stu_group : CommandType
  ct_build_house_get_stu_group_count ct_build_house_get_stu_group : CommandType
  ct_build_house_game_start st_build_house_game_start ct_build_house_update_pos : CommandType
  st_build_house_update_pos ct_build_house_game_end st_build_house_game_end : CommandType
  ct_build_house_save st_build_house_show ct_build_house_email_tibet : CommandType
  st_build_house_email_tibet ct_build_house_email_america : CommandType
  st_build_house_email_america ct_build_house_update st_build_house_update : CommandType
  ct_build_house_change_layer st_build_house_change_layer ct_build_house_add_pic : CommandType
  st_build_house_add_pic ct_build_house_del_pic st_build_house_del_pic : CommandType
  ct_build_house_activation st_build_house_activation ct_build_house_role : CommandType
  st_build_house_role ct_build_house_stamp st_build_house_stamp : CommandType
  ct_build_house_save_house ct_puzzle_game_start st_puzzle_game_start : CommandType
  ct_puzzle_get_pic st_puzzle_get_pic ct_puzzle_update_pic st_puzzle_update_pic : CommandType
  ct_puzzle_icon_status st_puzzle_icon_status ct_puzzle_play st_puzzle_play : CommandType
  ct_puzzle_pause st_puzzle_pause ct_puzzle_move_pic st_puzzle_move_pic : CommandType
  ct_puzzle_delete_pic st_puzzle_delete_pic ct_puzzle_add_pic st_puzzle_add_pic : CommandType
  ct_puzzle_calc_score ct_puzzle_end_game st_puzzle_end_game ct_scene_end : CommandType
  st_scene_end ct_rainbow_valley_house_num st_rainbow_valley_house_num : CommandType
  ct_rainbow_valley_house_info st_rainbow_valley_house_info st_dynamic_message_type : CommandType

unfoldable pub code : CommandType → ℕ
code ct_test = 1
code ct_change_scene = 100
code st_change_scene = 101
code ct_control_change_scene = 102
code st_control_change_scene = 103
code ct_login = 150
code ct_login_result = 151
code ct_get_course_db_count = 152
code ct_get_course_db = 153
code ct_set_course_group = 154
code ct_get_course_group = 155
code st_get_course_group = 156
code ct_get_course_item_count = 157
code ct_get_course_item = 158
code ct_logout = 159
code ct_logout_reuslt = 160
code ct_get_class_room_db_count = 161
code ct_get_class_room_db = 162
code ct_get_grade_db_count = 163
code ct_get_grade_db = 164
code ct_get_class_db_count = 165
code ct_get_class_db = 166
code ct_login_class_room = 167
code ct_logout_class_room = 168
code ct_get_student_detail_info = 169
code st_get_student_detail_info = 170
code ct_get_all_student_info_count = 171
code ct_get_all_student_info = 172
code ct_leave_early = 173
code st_leave_early = 174
code ct_confirm_leave_early = 175
code ct_get_teacher_info = 176
code st_get_teacher_info = 177
code ct_lock_student = 178
code st_lock_student = 179
code ct_selected_class_room = 180
code ct_course_finished = 181
code st_course_finished = 182
code ct_get_db_record_finished = 183
code st_get_db_record_finished = 184
code ct_get_course_item_key_info_req = 185
code ct_get_course_item_key_info_rsp = 186
code st_send_student_status = 187
code ct_common_playor_pause = 188
code st_common_playor_pause = 189
code ct_common_resume = 190
code st_common_resume = 191
code ct_common_stop = 192
code st_common_stop = 193
code ct_show_sprite_animation = 200
code st_show_sprite_animation = 201
code ct_show_sprite_control = 300
code st_show_sprite_control = 301
code ct_control_level = 302
code st_control_level = 303
code ct_exercise_game_start = 400
code st_exercise_game_start = 401
code ct_exercise_play = 402
code st_exercise_play = 403
code ct_exercise_pause = 404
code st_exercise_pause = 405
code ct_exercise_stop = 406
code st_exercise_stop = 407
code ct_exercise_game_end = 408
code st_exercise_game_end = 409
code ct_cartoon_game_start = 500
code st_cartoon_game_start = 501
code ct_cartoon_play = 502
code st_cartoon_play = 503
code ct_cartoon_pause = 504
code st_cartoon_pause = 505
code ct_cartoon_stop = 506
code st_cartoon_stop = 507
code ct_cartoon_game_end = 508
code st_cartoon_game_end = 509
code ct_build_house_cai_hong_xiao_wu = 600
code st_build_house_cai_hong_xiao_wu = 601
code ct_build_house_cai_hong_gu = 602
code st_build_house_cai_hong_gu = 603
code ct_build_house_xiao_guai_wu = 604
code st_build_house_xiao_guai_wu = 605
code ct_build_house_mu_bu = 606
code st_build_house_mu_bu = 607
code ct_build_house_operator_demo = 608
code st_build_house_operator_demo = 609
code ct_build_house_single_mode = 610
code st_build_house_single_mode = 611
code ct_build_house_group_mode = 612
code st_build_house_group_mode = 613
code ct_build_house_set_stu_group_count = 614
code ct_build_house_set_stu_group = 615
code ct_build_house_get_stu_group_count = 616
code ct_build_house_get_stu_group = 617
code ct_build_house_game_start = 618
code st_build_house_game_start = 619
code ct_build_house_update_pos = 620
code st_build_house_update_pos = 621
code ct_build_house_game_end = 622
code st_build_house_game_end = 623
code ct_build_house_save = 624
code st_build_house_show = 625
code ct_build_house_email_tibet = 626
code st_build_house_email_tibet = 627
code ct_build_house_email_america = 628
code st_build_house_email_america = 629
code ct_build_house_update = 630
code st_build_house_update = 631
code ct_build_house_change_layer = 632
code st_build_house_change_layer = 633
code ct_build_house_add_pic = 634
code st_build_house_add_pic = 635
code ct_build_house_del_pic = 636
code st_build_house_del_pic = 637
code ct_build_house_activation = 638
code st_build_house_activation = 639
code ct_build_house_role = 640
code st_build_house_role = 641
code ct_build_house_stamp = 642
code st_build_house_stamp = 643
code ct_build_house_save_house = 644
code ct_puzzle_game_start = 700
code st_puzzle_game_start = 701
code ct_puzzle_get_pic = 702
code st_puzzle_get_pic = 703
code ct_puzzle_update_pic = 704
code st_puzzle_update_pic = 705
code ct_puzzle_icon_status = 706
code st_puzzle_icon_status = 707
code ct_puzzle_play = 708
code st_puzzle_play = 709
code ct_puzzle_pause = 710
code st_puzzle_pause = 711
code ct_puzzle_move_pic = 712
code st_puzzle_move_pic = 713
code ct_puzzle_delete_pic = 714
code st_puzzle_delete_pic = 715
code ct_puzzle_add_pic = 716
code st_puzzle_add_pic = 717
code ct_puzzle_calc_score = 718
code ct_puzzle_end_game = 719
code st_puzzle_end_game = 720
code ct_scene_end = 721
code st_scene_end = 722
code ct_rainbow_valley_house_num = 800
code st_rainbow_valley_house_num = 801
code ct_rainbow_valley_house_info = 802
code st_rainbow_valley_house_info = 803
code st_dynamic_message_type = 10000
