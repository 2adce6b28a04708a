-- ===== src/Spice/Names.antt =====
-- linux/src/ydyun_spice.py: the tables of names of display messages and codecs.
use Prim.Native.String.{String}
use ydyun_vdesktop_linux_dri.Base.{ℕ, List, [], ◌∷◌, ◌==◌, if◌then◌else◌}
use ydyun_vdesktop_linux_dri.Spice.Frame.{SpiceDataFrame}

abbrev table_get : ℕ → List (ℕ × String) → String → String
table_get k [] default = default
table_get k ((j, v) ∷ t) default = if j == k then v else table_get k t default

-- DISPLAY_CODEC_NAMES
abbrev display_codec_names : List (ℕ × String)
display_codec_names = (1, "mjpeg") ∷ (2, "vp8") ∷ (3, "h264") ∷ (4, "vp9") ∷ (5, "h265") ∷ []

unfoldable pub codec_name : ℕ → String
codec_name value = table_get value display_codec_names "unknown"

-- DISPLAY_MESSAGE_NAMES
abbrev display_message_names : List (ℕ × String)
display_message_names =
    (101, "display_mode")
    ∷ (102, "display_mark")
    ∷ (103, "display_reset")
    ∷ (104, "display_copy_bits")
    ∷ (105, "display_inval_list")
    ∷ (106, "display_inval_all_pixmaps")
    ∷ (107, "display_inval_palette")
    ∷ (108, "display_inval_all_palettes")
    ∷ (122, "display_stream_create")
    ∷ (123, "display_stream_data")
    ∷ (124, "display_stream_clip")
    ∷ (125, "display_stream_destroy")
    ∷ (126, "display_stream_destroy_all")
    ∷ (302, "display_draw_fill")
    ∷ (303, "display_draw_opaque")
    ∷ (304, "display_draw_copy")
    ∷ (305, "display_draw_blend")
    ∷ (306, "display_draw_blackness")
    ∷ (307, "display_draw_whiteness")
    ∷ (308, "display_draw_invers")
    ∷ (309, "display_draw_rop3")
    ∷ (310, "display_draw_stroke")
    ∷ (311, "display_draw_text")
    ∷ (312, "display_draw_transparent")
    ∷ (313, "display_draw_alpha_blend")
    ∷ (314, "display_surface_create")
    ∷ (315, "display_surface_destroy")
    ∷ (316, "display_stream_data_sized")
    ∷ (317, "display_monitors_config")
    ∷ (318, "display_draw_composite")
    ∷ (319, "display_stream_activate_report")
    ∷ (320, "display_gl_scanout_unix")
    ∷ (321, "display_gl_draw")
    ∷ (322, "display_quality_indicator")
    ∷ []

-- The property `SpiceDataFrame.message_name`.
pub message_name : SpiceDataFrame → String
message_name frame = table_get frame.message_type display_message_names "unknown"
