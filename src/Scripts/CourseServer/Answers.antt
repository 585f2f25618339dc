-- ===== src/Scripts/CourseServer/Answers.antt =====
-- What scripts/backend.go answers to a request for a course.
use go_loadbalancer.Prelude.{
  ℕ, ◌≡◌, ◌≢◌, refl, inl, inr, false, Option, none, some, String, Bool-cases, if◌then◌else◌,
}
use go_loadbalancer.Prelude.Map.{◌==◌, string_key}
use go_loadbalancer.Scripts.CourseServer.{
  CreateCourseRequest, Course, Answer, error, created, parsed, respond, read, new_uuid,
  create_course,
}

-- The answers that a request may get, with what leads to each.
pub data Answered (unmarshal : String → Option CreateCourseRequest) (random : Option (ℕ → ℕ))
    (method : String) (body : Option String) : Answer → Type 0 where
  not_post :
      method ≢ "POST" → Answered unmarshal random method body (error 405 "method not allowed")
  unread : body ≡ none → Answered unmarshal random method body (error 400 "bad request")
  no_json :
      {text : String}
      → body ≡ some text
      → text ≢ ""
      → unmarshal text ≡ none
      → Answered unmarshal random method body (error 400 "invalid json")
  accepted :
      {c : Course}
      → method ≡ "POST"
      → c.title ≢ ""
      → c.uuid ≡ new_uuid random
      → Answered unmarshal random method body (created c)

apart : (s t : String) → (s == t) ≡ false → s ≢ t
apart s t h e = let same = (string_key.beq_iff s t).1 e in cc

titled : (s : String) → (if s == "" then "Default Course" else s) ≢ ""
titled s = elim (Bool-cases (s == "")) [
  | inl empty ↦ rw empty (apart "Default Course" "" refl)
  | inr some_title ↦ rw some_title (apart s "" some_title)
]

module _ (unmarshal : String → Option CreateCourseRequest) (random : Option (ℕ → ℕ))
    (method : String) where
  respond-Answered :
      (text : String) (req : Option CreateCourseRequest)
      → method ≡ "POST"
      → (req ≡ none → (text ≢ "") × (unmarshal text ≡ none))
      → Answered unmarshal random method (some text) (respond random req)
  respond-Answered text none post h = let (full, bad) = h refl in no_json refl full bad
  respond-Answered text (some req) post h = accepted post (titled req.title) refl

  parsed-none :
      (text : String) → parsed unmarshal text ≡ none → (text ≢ "") × (unmarshal text ≡ none)
  parsed-none text = elim (Bool-cases (text == "")) [
    | inl empty ↦ rw empty (λ e. cc)
    | inr full ↦ rw full (λ e. (apart text "" full, e))
  ]

  read-Answered :
      (body : Option String)
      → method ≡ "POST"
      → Answered unmarshal random method body (read unmarshal random body)
  read-Answered none post = unread refl
  read-Answered (some text) post =
      respond-Answered text (parsed unmarshal text) post (parsed-none text)

  -- Another method than POST is answered with 405, a body that cannot be read or is not empty and no
  -- JSON with 400, and all else with a course that has a title and the identifier that was made.
  pub create_course-Answered :
      (body : Option String)
      → Answered unmarshal random method body (create_course unmarshal random method body)
  unfolding create_course
  create_course-Answered body = elim (Bool-cases (method == "POST")) [
    | inl post ↦ rw post (read-Answered body ((string_key.beq_iff method "POST").0 post))
    | inr other ↦ rw other (not_post (apart method "POST" other))
  ]
