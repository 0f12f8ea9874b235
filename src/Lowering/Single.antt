-- ===== src/Lowering/Single.antt =====
-- pycompile/src/lowering/*_lowering.cpp: the patterns that are one call of a helper.
use pycompile.Base.{true, false, List, String}
use pycompile.Pyir.{Value}
use pycompile.Lowering.Rewriter.{Build, Rewritten, insert_runtime_func}
use pycompile.Lowering.Arrays.{build_array_type}
use pycompile.Lowering.Constants.{insert_load_runtime_func, insert_store_runtime_func}

abbrev pub lower_destroy_module : List Value → Build Rewritten
lower_destroy_module operands = insert_runtime_func "pyir_destroyModule" false operands

abbrev pub lower_load_fast : String → Build Rewritten
lower_load_fast name = insert_load_runtime_func "pyir_loadFast" name

abbrev pub lower_load_fast_and_clear : String → Build Rewritten
lower_load_fast_and_clear name = insert_load_runtime_func "pyir_loadFastAndClear" name

abbrev pub lower_store_fast : String → Value → Build Rewritten
lower_store_fast name v = insert_store_runtime_func "pyir_storeFast" name v

abbrev pub lower_load_name : String → Build Rewritten
lower_load_name name = insert_load_runtime_func "pyir_loadName" name

abbrev pub lower_store_name : String → Value → Build Rewritten
lower_store_name name v = insert_store_runtime_func "pyir_storeName" name v

abbrev pub lower_push_scope : List Value → Build Rewritten
lower_push_scope operands = insert_runtime_func "pyir_pushScope" false operands

abbrev pub lower_pop_scope : List Value → Build Rewritten
lower_pop_scope operands = insert_runtime_func "pyir_popScope" false operands

abbrev pub lower_to_bool : List Value → Build Rewritten
lower_to_bool operands = insert_runtime_func "pyir_toBool" true operands

abbrev pub lower_unary_invert : List Value → Build Rewritten
lower_unary_invert operands = insert_runtime_func "pyir_unaryInvert" true operands

abbrev pub lower_unary_negative : List Value → Build Rewritten
lower_unary_negative operands = insert_runtime_func "pyir_unaryNegative" true operands

abbrev pub lower_unary_not : List Value → Build Rewritten
lower_unary_not operands = insert_runtime_func "pyir_unaryNot" true operands

abbrev pub lower_format_simple : List Value → Build Rewritten
lower_format_simple operands = insert_runtime_func "pyir_formatSimple" true operands

abbrev pub lower_build_string : List Value → Build Rewritten
lower_build_string operands = build_array_type "pyir_buildString" operands

abbrev pub lower_build_list : List Value → Build Rewritten
lower_build_list operands = build_array_type "pyir_buildList" operands

abbrev pub lower_list_extend : List Value → Build Rewritten
lower_list_extend operands = insert_runtime_func "pyir_listExtend" false operands

abbrev pub lower_list_append : List Value → Build Rewritten
lower_list_append operands = insert_runtime_func "pyir_listAppend" false operands

abbrev pub lower_build_set : List Value → Build Rewritten
lower_build_set operands = build_array_type "pyir_buildSet" operands

abbrev pub lower_set_update : List Value → Build Rewritten
lower_set_update operands = insert_runtime_func "pyir_setUpdate" false operands

abbrev pub lower_set_add : List Value → Build Rewritten
lower_set_add operands = insert_runtime_func "pyir_setAdd" false operands

abbrev pub lower_build_map : List Value → Build Rewritten
lower_build_map operands = build_array_type "pyir_buildMap" operands

abbrev pub lower_map_add : List Value → Build Rewritten
lower_map_add operands = insert_runtime_func "pyir_mapAdd" false operands

abbrev pub lower_get_iter : List Value → Build Rewritten
lower_get_iter operands = insert_runtime_func "pyir_getIter" true operands

abbrev pub lower_pop_iter : List Value → Build Rewritten
lower_pop_iter operands = insert_runtime_func "pyir_popIter" false operands
