-- ===== src/Buildinfo/Stamps.antt =====
-- Flags against the settings that the toolchain recorded.
use neokit.Base.{
  List, ◌≡◌, false, true, some, [], ◌∷◌, Bool-cases, if◌then◌else◌, ◌∙◌, inl, refl, inr,
}
use neokit.Text.{Text, codes, trim, is_space, text_eq, text_eq_iff}
use neokit.Buildinfo.{Info, filled, note_setting, note_settings, get}

-- The first setting with a key that is not blank, after what is there already.
unfoldable pub first_of : Text → Text → List (Text × Text) → Text
first_of key value [] = value
first_of key value ((k, v) ∷ ss) =
    let here = first_of key (filled value v) ss in
    let there = first_of key value ss in if text_eq k key then here else there

distinct_keys :
    (k : Text) (s t : Text) → text_eq s t ≡ false → text_eq k s ≡ true → text_eq k t ≡ false
distinct_keys k s t h e = rw ((text_eq_iff k s).0 e) h

keys_differ : text_eq (codes "vcs.revision") (codes "vcs.time") ≡ false
unfolding text_eq
keys_differ = refl

note_settings-first_of :
    (ss : List (Text × Text)) (i : Info)
    → ((note_settings ss i).commit ≡ first_of (codes "vcs.revision") i.commit ss)
      × ((note_settings ss i).date ≡ first_of (codes "vcs.time") i.date ss)
      × ((note_settings ss i).version ≡ i.version)
unfolding note_settings note_setting first_of
note_settings-first_of [] i = (refl, refl, refl)
note_settings-first_of ((k, v) ∷ ss) i = elim (Bool-cases (text_eq k (codes "vcs.revision"))) [
  | inl e ↦
      let d = distinct_keys k (codes "vcs.revision") (codes "vcs.time") keys_differ e in
      rw (note_settings, note_setting, e, d)
        (note_settings-first_of ss (record i { commit = filled i.commit v }))
  | inr e ↦ elim (Bool-cases (text_eq k (codes "vcs.time"))) [
    | inl d ↦
        rw (note_settings, note_setting, e, d)
          (note_settings-first_of ss (record i { date = filled i.date v }))
    | inr d ↦ elim (Bool-cases (text_eq k (codes "vcs.modified"))) [
      | inl m ↦
          rw (note_settings, note_setting, e, d, m)
            (note_settings-first_of ss (record i { dirty = text_eq v (codes "true") }))
      | inr m ↦ rw (note_settings, note_setting, e, d, m) (note_settings-first_of ss i)
    ]
  ]
]

-- What the flags name is kept, with white space trimmed; a commit or a date that they leave blank is
-- the first one that the toolchain recorded and that is not blank; a blank version is "dev".
pub get-first_of :
    (settings : List (Text × Text)) (version commit date : Text)
    → let i = get (some settings) version commit date in
      (i.commit ≡ first_of (codes "vcs.revision") (trim is_space commit) settings)
      × (i.date ≡ first_of (codes "vcs.time") (trim is_space date) settings)
      × (i.version ≡ filled (trim is_space version) (codes "dev"))
unfolding get
get-first_of settings version commit date =
    let (a, b, c) = note_settings-first_of settings (record {
      version = (elim (trim is_space version) [ [] ↦ codes "dev" | c ∷ s ↦ c ∷ s ]);
      commit = trim is_space commit;
      date = trim is_space date;
      dirty = false;
    }) in
    (a, b, c ∙ same (trim is_space version))
  where
    same :
        (t : Text)
        → (elim t as (λ x. Text) [ [] ↦ codes "dev" | c ∷ s ↦ c ∷ s ]) ≡ filled t (codes "dev")
    same [] = refl
    same (c ∷ s) = refl
