-- ===== src/Buildinfo.antt =====
-- buildinfo/buildinfo.go: what a binary says of its build. The settings that the toolchain recorded
-- are an argument, none where there are none; the runtime's version and platform are left out. A
-- commit is ASCII, so that its bytes are its characters.
pub mod Stamps
use neokit.Base.{
  Bool, List, Option, [], if◌then◌else◌, ◌++◌, leb, ◌∷◌, false, length, none, take, some,
}
use neokit.Text.{Text, codes, trim, is_space, text_eq}

pub record Info : Type 0 where
  pub version : Text
  pub commit : Text
  pub date : Text
  pub dirty : Bool

abbrev pub filled : Text → Text → Text
filled [] value = value
filled (c ∷ s) value = c ∷ s

-- One setting of the loop in Get.
unfoldable pub note_setting : Text × Text → Info → Info
note_setting (key, value) info =
    if text_eq key (codes "vcs.revision")
    then record info { commit = filled info.commit value }
    else if text_eq key (codes "vcs.time")
    then record info { date = filled info.date value }
    else if text_eq key (codes "vcs.modified")
    then record info { dirty = text_eq value (codes "true") }
    else info

unfoldable pub note_settings : List (Text × Text) → Info → Info
note_settings [] info = info
note_settings (s ∷ ss) info = note_settings ss (note_setting s info)

-- Get
unfoldable pub get : Option (List (Text × Text)) → Text → Text → Text → Info
unfolding note_settings
get settings version commit date =
    let v = trim is_space version in
    let info : Info = record {
      version = (elim v [ [] ↦ codes "dev" | c ∷ s ↦ c ∷ s ]);
      commit = trim is_space commit;
      date = trim is_space date;
      dirty = false;
    } in
    elim settings [ none ↦ info | some ss ↦ note_settings ss info ]

-- ShortCommit
unfoldable pub short_commit : Info → Text
short_commit i = if leb (length i.commit) 7 then i.commit else take 7 i.commit

-- String
unfoldable pub text_of : Info → Text
unfolding short_commit
text_of i = elim (short_commit i) [
  | [] ↦ if i.dirty then i.version ++ codes " (dirty)" else i.version
  | c ∷ s ↦
      i.version ++ codes " (" ++ (c ∷ s) ++ (if i.dirty then codes ", dirty" else []) ++ codes ")"
]
