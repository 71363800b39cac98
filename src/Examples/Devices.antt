-- ===== src/Examples/Devices.antt =====
-- A table with one device, "laptop", signed in under the hash "h1".
use neokit.Base.{
  ap, ◌∙◌, ◌+◌, ◌*◌, ◌≡◌, String, string_eq, List, [], ◌∷◌, false, refl, pos, suc, ℕ, zero,
}
use neokit.Clock.{Instant, second}
use neokit.Session.{Session}
use neokit.Text.{Text, codes}
use neokit.Session.Sqlite.{Json, Row, create_session}
use neokit.Session.Sqlite.Refinement.{
  Op, create, touch, sweep, sign_out, perform_all, view, meaning_all, perform_all-meaning_all,
}
use neokit.Session.Sqlite.Rows.{Reach, start, creates}

-- Groups as one text: every character after a 1, and a 0 after every group.
abbrev pub write : Text → Text → Text
write [] rest = 0 ∷ rest
write (c ∷ s) rest = 1 ∷ c ∷ write s rest

abbrev pub encode : List Text → Text
encode [] = []
encode (g ∷ gs) = write g (encode gs)

abbrev pub into_first : ℕ → List Text → List Text
into_first c [] = (c ∷ []) ∷ []
into_first c (g ∷ gs) = (c ∷ g) ∷ gs

abbrev pub decode : Text → List Text
decode [] = []
decode (zero ∷ rest) = [] ∷ decode rest
decode (suc m ∷ []) = []
decode (suc m ∷ c ∷ rest) = into_first c (decode rest)

decode-write : (g rest : Text) → decode (write g rest) ≡ g ∷ decode rest
decode-write [] rest = refl
decode-write (c ∷ g) rest = ap (into_first c) (decode-write g rest)

pub decode-encode : (gs : List Text) → decode (encode gs) ≡ gs
decode-encode [] = refl
decode-encode (g ∷ gs) = decode-write g (encode gs) ∙ ap (λ x. g ∷ x) (decode-encode gs)

abbrev pub json : Json
json = record { encode = encode; decode = decode; decode-encode = decode-encode }

abbrev laptop : Session
laptop = record {
  id = "laptop";
  subject = codes "alice";
  name = codes "Alice";
  email = codes "alice@example.org";
  groups = [];
  owner = false;
  user_agent = [];
  created_at = pos (100 * second);
  last_seen_at = pos (100 * second + 5);
  expires_at = pos (900 * second);
}

abbrev pub hash : String
hash = "h1"

abbrev other : String
other = "h2"

abbrev pub table : List Row
table = (create_session json laptop hash []).0

pub table-Reach : Reach json table
table-Reach = creates laptop hash start

abbrev later : Instant
later = pos (500 * second)

-- Signed in twice under one hash, seen, swept and signed out.
abbrev history : List Op
history =
    create laptop hash
    ∷ create laptop hash
    ∷ touch "laptop" later (pos (1300 * second))
    ∷ sweep later
    ∷ sign_out hash
    ∷ []

perform_all-meaning_all_example :
    let (rows', done) = perform_all json history [] in
    view json rows' hash ≡ meaning_all done (view json []) hash
perform_all-meaning_all_example = perform_all-meaning_all json history hash start
