-- ===== src/Scripts/CourseServer/Tests.antt =====
-- The identifier made of the bytes 0 to 15.
use go_loadbalancer.Prelude.{ℕ, ◌%◌, ◌≡◌, refl, arith, some}
use go_loadbalancer.Scripts.CourseServer.{new_uuid}
use go_loadbalancer.Scripts.CourseServer.Uuid.{UuidV4, new_uuid-UuidV4}
use go_loadbalancer.Go.Hex.{hex_digit, hex_in_front}

abbrev random : ℕ → ℕ
random i = i % 256

text : new_uuid (some random) ≡ "00010203-0405-4607-8809-0a0b0c0d0e0f"
unfolding new_uuid hex_in_front hex_digit
text = refl

new_uuid-UuidV4_example : UuidV4 (new_uuid (some random))
new_uuid-UuidV4_example = new_uuid-UuidV4 random (λ i. omega arith)
