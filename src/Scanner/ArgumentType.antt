-- ===== src/Scanner/ArgumentType.antt =====
-- `ArgumentType` of pywayland/scanner/argument.py, which the run time shares with the scanner.
use pywayland_i6ie.Base.{String, Bool, true, false}

pub data ArgumentType : Type 0 where
  int uint fixed string object new_id array file_descriptor : ArgumentType

-- `arg.type == ArgumentType.NewId`
abbrev pub is_new_id : ArgumentType → Bool
is_new_id new_id = true
is_new_id _ = false

-- `arg.type == ArgumentType.Object`
abbrev pub is_array : ArgumentType → Bool
is_array array = true
is_array _ = false

abbrev pub is_object : ArgumentType → Bool
is_object object = true
is_object _ = false

-- `arg.type.name`, the name of the enum's member.
unfoldable pub member_name : ArgumentType → String
member_name int = "Int"
member_name uint = "Uint"
member_name fixed = "Fixed"
member_name string = "String"
member_name object = "Object"
member_name new_id = "NewId"
member_name array = "Array"
member_name file_descriptor = "FileDescriptor"
