-- ===== src/Protocol/Constants/AccessPrivilege.antt =====
-- The privileges of an account, as bits 0 to 54 of the access mask.
use slopline.Base.{ℕ, ◌<◌, arith}

pub data AccessPrivilege : Type 0 where
  delete_file upload_file download_file rename_file move_file create_folder delete_folder
        rename_folder move_folder read_chat send_chat create_chat close_chat show_in_list
        create_user delete_user open_user modify_user change_own_pass send_priv_msg news_read_art
        news_post_art discon_user cannot_be_discon get_client_info upload_anywhere any_name
        no_agreement set_file_comment set_folder_comment view_drop_boxes make_alias broadcast
        news_delete_art news_create_cat news_delete_cat news_create_fldr news_delete_fldr
        upload_folder download_folder send_message fake_red away change_nick change_icon
        speak_before refuse_chat block_download visible can_view_invisible can_flood
        view_own_drop_box dont_queue adm_in_spector post_before :
      AccessPrivilege

-- `static_cast<unsigned>(privilege)`.
unfoldable pub index : AccessPrivilege → ℕ
index delete_file = 0
index upload_file = 1
index download_file = 2
index rename_file = 3
index move_file = 4
index create_folder = 5
index delete_folder = 6
index rename_folder = 7
index move_folder = 8
index read_chat = 9
index send_chat = 10
index create_chat = 11
index close_chat = 12
index show_in_list = 13
index create_user = 14
index delete_user = 15
index open_user = 16
index modify_user = 17
index change_own_pass = 18
index send_priv_msg = 19
index news_read_art = 20
index news_post_art = 21
index discon_user = 22
index cannot_be_discon = 23
index get_client_info = 24
index upload_anywhere = 25
index any_name = 26
index no_agreement = 27
index set_file_comment = 28
index set_folder_comment = 29
index view_drop_boxes = 30
index make_alias = 31
index broadcast = 32
index news_delete_art = 33
index news_create_cat = 34
index news_delete_cat = 35
index news_create_fldr = 36
index news_delete_fldr = 37
index upload_folder = 38
index download_folder = 39
index send_message = 40
index fake_red = 41
index away = 42
index change_nick = 43
index change_icon = 44
index speak_before = 45
index refuse_chat = 46
index block_download = 47
index visible = 48
index can_view_invisible = 49
index can_flood = 50
index view_own_drop_box = 51
index dont_queue = 52
index adm_in_spector = 53
index post_before = 54

-- Each fits the mask's 64 bits.
pub index-lt : (p : AccessPrivilege) → index p < 64
unfolding index
index-lt delete_file = omega arith
index-lt upload_file = omega arith
index-lt download_file = omega arith
index-lt rename_file = omega arith
index-lt move_file = omega arith
index-lt create_folder = omega arith
index-lt delete_folder = omega arith
index-lt rename_folder = omega arith
index-lt move_folder = omega arith
index-lt read_chat = omega arith
index-lt send_chat = omega arith
index-lt create_chat = omega arith
index-lt close_chat = omega arith
index-lt show_in_list = omega arith
index-lt create_user = omega arith
index-lt delete_user = omega arith
index-lt open_user = omega arith
index-lt modify_user = omega arith
index-lt change_own_pass = omega arith
index-lt send_priv_msg = omega arith
index-lt news_read_art = omega arith
index-lt news_post_art = omega arith
index-lt discon_user = omega arith
index-lt cannot_be_discon = omega arith
index-lt get_client_info = omega arith
index-lt upload_anywhere = omega arith
index-lt any_name = omega arith
index-lt no_agreement = omega arith
index-lt set_file_comment = omega arith
index-lt set_folder_comment = omega arith
index-lt view_drop_boxes = omega arith
index-lt make_alias = omega arith
index-lt broadcast = omega arith
index-lt news_delete_art = omega arith
index-lt news_create_cat = omega arith
index-lt news_delete_cat = omega arith
index-lt news_create_fldr = omega arith
index-lt news_delete_fldr = omega arith
index-lt upload_folder = omega arith
index-lt download_folder = omega arith
index-lt send_message = omega arith
index-lt fake_red = omega arith
index-lt away = omega arith
index-lt change_nick = omega arith
index-lt change_icon = omega arith
index-lt speak_before = omega arith
index-lt refuse_chat = omega arith
index-lt block_download = omega arith
index-lt visible = omega arith
index-lt can_view_invisible = omega arith
index-lt can_flood = omega arith
index-lt view_own_drop_box = omega arith
index-lt dont_queue = omega arith
index-lt adm_in_spector = omega arith
index-lt post_before = omega arith
