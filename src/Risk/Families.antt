-- ===== src/Risk/Families.antt =====
-- The vulnerability table (backend/engine/families.py). V is in hundredths.
use sih.Prelude.{ℕ, Bool, true, false, ◌||◌, Option, none, some, ltb, if◌then◌else◌}
use sih.Model.{
  Family, rsa, dsa, dh, ecdh, ecdsa, ed25519, x25519, aes, chacha20, three_des, des, rc4, blowfish,
  md5, sha_1, sha_2, sha_3, hmac, ml_kem, ml_dsa, slh_dsa,
}

-- `_SHOR_BROKEN`
unfoldable pub is_shor_broken : Family → Bool
is_shor_broken rsa = true
is_shor_broken dsa = true
is_shor_broken dh = true
is_shor_broken ecdh = true
is_shor_broken ecdsa = true
is_shor_broken ed25519 = true
is_shor_broken x25519 = true
is_shor_broken _ = false

-- `_POST_QUANTUM`
unfoldable pub is_post_quantum : Family → Bool
is_post_quantum ml_kem = true
is_post_quantum ml_dsa = true
is_post_quantum slh_dsa = true
is_post_quantum _ = false

-- `_CLASSICALLY_BROKEN`
unfoldable pub is_classically_broken : Family → Bool
is_classically_broken md5 = true
is_classically_broken sha_1 = true
is_classically_broken des = true
is_classically_broken rc4 = true
is_classically_broken three_des = true
is_classically_broken _ = false

-- `_HASH_FAMILIES`
unfoldable pub is_hash : Family → Bool
is_hash md5 = true
is_hash sha_1 = true
is_hash sha_2 = true
is_hash sha_3 = true
is_hash _ = false

unfoldable pub is_blowfish : Family → Bool
is_blowfish blowfish = true
is_blowfish _ = false

unfoldable pub is_aes : Family → Bool
is_aes aes = true
is_aes _ = false

unfoldable pub is_chacha20 : Family → Bool
is_chacha20 chacha20 = true
is_chacha20 _ = false

unfoldable pub is_hmac : Family → Bool
is_hmac hmac = true
is_hmac _ = false

-- `key_size is not None and key_size < bits`
abbrev pub below : ℕ → Option ℕ → Bool
below bits none = false
below bits (some n) = ltb n bits

unfoldable pub vulnerability : Family → Option ℕ → ℕ
unfolding is_shor_broken is_post_quantum is_classically_broken is_hash is_blowfish is_aes
    is_chacha20 is_hmac
vulnerability family key_size =
    if is_shor_broken family
    then 100
    else if is_post_quantum family
    then 0
    else if is_classically_broken family
    then 100
    else if is_blowfish family
    then 100
    else if is_aes family || is_chacha20 family
    then (if below 256 key_size then 60 else 10)
    else if is_hash family
    then 5
    else if is_hmac family
    then 5
    else 50
