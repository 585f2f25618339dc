-- ===== src/Scripts/CourseServer.antt =====
-- scripts/backend.go: the server that stands behind the balancer in tests. Reading the body and parsing
-- JSON are arguments, none for an error; an answer keeps its status and the course it shows.
pub mod Uuid
pub mod Answers
mod Tests
use Prim.Native.Nat.{bit_and, bit_or}
use Prim.Native.String.{String}
use go_loadbalancer.Prelude.{ℕ, ◌≡◌, Bool, Option, none, some, if◌then◌else◌}
use go_loadbalancer.Prelude.Map.{◌==◌, nat_key, string_key}
use go_loadbalancer.Go.Hex.{hex_in_front}

abbrev pub set_byte : ℕ → ℕ → (ℕ → ℕ) → ℕ → ℕ
set_byte i v b j = if j == i then v else b j

-- The version and the variant.
abbrev pub marked : (ℕ → ℕ) → ℕ → ℕ
marked b =
    let b6 = set_byte 6 (bit_or (bit_and (b 6) 0x0f) 0x40) b in
    set_byte 8 (bit_or (bit_and (b6 8) 0x3f) 0x80) b6

-- `random` is what `rand.Read` fills the 16 bytes with, none for its error.
unfoldable pub new_uuid : Option (ℕ → ℕ) → String
unfolding hex_in_front
new_uuid none = ""
new_uuid (some random) =
    let b = marked random in
    hex_in_front b 0 4 (
      String.◌∷◌ "-" (
        hex_in_front b 4 2 (
          String.◌∷◌ "-" (
            hex_in_front b 6 2 (
              String.◌∷◌ "-"
                (hex_in_front b 8 2 (String.◌∷◌ "-" (hex_in_front b 10 6 String.[]))))))))

pub record CreateCourseRequest : Type 0 where
  pub title : String
  pub description : String

pub record Course : Type 0 where
  pub uuid : String
  pub title : String
  pub description : String

pub data Answer : Type 0 where
  error : ℕ → String → Answer
  created : Course → Answer

abbrev no_request : CreateCourseRequest
no_request = record { title = ""; description = "" }

-- `req` after the body was parsed.
abbrev pub parsed : (String → Option CreateCourseRequest) → String → Option CreateCourseRequest
parsed unmarshal body = if body == "" then some no_request else unmarshal body

-- After the parsing; `random` is for the identifier.
abbrev pub respond : Option (ℕ → ℕ) → Option CreateCourseRequest → Answer
respond random none = error 400 "invalid json"
respond random (some req) = created (record {
  uuid = new_uuid random;
  title = if req.title == "" then "Default Course" else req.title;
  description = req.description;
})

abbrev pub read : (String → Option CreateCourseRequest) → Option (ℕ → ℕ) → Option String → Answer
read unmarshal random none = error 400 "bad request"
read unmarshal random (some body) = respond random (parsed unmarshal body)

-- The handler of /create-course.
unfoldable pub create_course :
    (String → Option CreateCourseRequest) → Option (ℕ → ℕ) → String → Option String → Answer
create_course unmarshal random method body =
    if method == "POST" then read unmarshal random body else error 405 "method not allowed"
