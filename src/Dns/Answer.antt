-- ===== src/Dns/Answer.antt =====
-- dns.c: a response with one question and one address record, and the query that it answers.
use os_from_scratch_graphic.Prelude.{
  ℕ, ◌+◌, ◌*◌, ◌^◌, ◌≡◌, ◌≤◌, refl, ◌∙◌, true, some, List, [], ◌∷◌, ◌++◌, arith, length,
  length-append,
}
use os_from_scratch_graphic.Endian.{Bytes, byte}
use os_from_scratch_graphic.Endian.Layout.{byte-append_right}
use os_from_scratch_graphic.Dns.Cache.{Dns, DnsEntry, dns_cache_store, qtrack_getname, qtrack_clear}
use os_from_scratch_graphic.Dns.Response.{
  be16_at, skip_labels, skip_questions, skip_name, store_answer, read_answers, dns_on_response,
}
use os_from_scratch_graphic.Dns.Names.{IsPacked, skip_labels-IsPacked}

-- The answer section: a pointer to the name, type A, class IN, four bytes of time to live, a data
-- length of 4, and the address.
abbrev pub answer_record : Bytes → Bytes → Bytes
answer_record ttl address = 0xc0 ∷ 0x0c ∷ 0 ∷ 1 ∷ 0 ∷ 1 ∷ ttl ++ (0 ∷ 4 ∷ address)

-- A response with the id in two bytes, one question and one answer.
abbrev pub response : ℕ → ℕ → Bytes → Bytes → Bytes → Bytes
response id_high id_low packed ttl address =
    (id_high ∷ id_low ∷ 0x81 ∷ 0x80 ∷ 0 ∷ 1 ∷ 0 ∷ 1 ∷ 0 ∷ 0 ∷ 0 ∷ 0 ∷ [])
    ++ (packed ++ (0 ∷ 1 ∷ 0 ∷ 1 ∷ answer_record ttl address))

-- One address record at offset `off`, behind which the response ends.
record HasAnswer (m : Bytes) (len off a b c d : ℕ) : Type 0 where
  ends : len ≡ off + 16
  pointer : byte m off ≡ 0xc0
  type_high : byte m (off + 2) ≡ 0
  type_low : byte m (off + 2 + 1) ≡ 1
  class_high : byte m (off + 2 + 2) ≡ 0
  class_low : byte m (off + 2 + 2 + 1) ≡ 1
  size_high : byte m (off + 2 + 8) ≡ 0
  size_low : byte m (off + 2 + 8 + 1) ≡ 4
  first : byte m (off + 2 + 10) ≡ a
  second : byte m (off + 2 + 10 + 1) ≡ b
  third : byte m (off + 2 + 10 + 2) ≡ c
  fourth : byte m (off + 2 + 10 + 3) ≡ d

skip_name-pointer : (m : Bytes) (len off : ℕ) → byte m off ≡ 0xc0 → skip_name m len off ≡ off + 2
unfolding skip_name
skip_name-pointer m len off e = rw e refl

store_answer-HasAnswer :
    (cache : List DnsEntry) (name m : Bytes) (len off a b c d : ℕ)
    → HasAnswer m len off a b c d
    → store_answer cache (some name) m (off + 2)
      ≡ dns_cache_store cache name (a * 2 ^ 24 + b * 2 ^ 16 + c * 2 ^ 8 + d)
store_answer-HasAnswer cache name m len off a b c d h = ground arith

read_answers-HasAnswer :
    (cache : List DnsEntry) (name m : Bytes) (len off a b c d : ℕ)
    → HasAnswer m len off a b c d
    → read_answers 1 cache (some name) m len off
      ≡ (dns_cache_store cache name (a * 2 ^ 24 + b * 2 ^ 16 + c * 2 ^ 8 + d), true)
unfolding read_answers
read_answers-HasAnswer cache name m len off a b c d h = ground (
  arith,
  skip_name-pointer m len off h.pointer,
  store_answer-HasAnswer cache name m len off a b c d h,
)

skip_questions-one :
    (m : Bytes) (len k : ℕ)
    → skip_labels len m len 12 + 1 ≡ 12 + k
    → 16 + k ≤ len
    → skip_questions 1 m len 12 ≡ some (16 + k)
unfolding skip_questions
skip_questions-one m len k e fits = ground arith

-- A response with one question and one address record for an outstanding query.
record IsReply (m : Bytes) (len id k a b c d : ℕ) : Type 0 where
  id_is : be16_at m 0 ≡ id
  questions : be16_at m 4 ≡ 1
  answers : be16_at m 6 ≡ 1
  question : skip_labels len m len 12 + 1 ≡ 12 + k
  answer : HasAnswer m len (16 + k) a b c d

dns_on_response-IsReply :
    (dns : Dns) (name m : Bytes) (len id k a b c d : ℕ)
    → IsReply m len id k a b c d
    → qtrack_getname dns.qtracks id ≡ some name
    → dns_on_response dns m len ≡ record dns {
      cache = dns_cache_store dns.cache name (a * 2 ^ 24 + b * 2 ^ 16 + c * 2 ^ 8 + d);
      qtracks = qtrack_clear dns.qtracks id;
    }
unfolding dns_on_response
dns_on_response-IsReply dns name m len id k a b c d r known = ground (
  arith,
  skip_questions-one m len k r.question,
  read_answers-HasAnswer dns.cache name m len (16 + k) a b c d r.answer,
)

module _ (h l : ℕ) (packed : Bytes) (p : IsPacked packed) (t0 t1 t2 t3 a b c d : ℕ) where
  abbrev pub m : Bytes
  m = response h l packed (t0 ∷ t1 ∷ t2 ∷ t3 ∷ []) (a ∷ b ∷ c ∷ d ∷ [])

  length-m : length m ≡ 32 + length packed
  length-m = omega (
    arith,
    length-append packed
        (0 ∷ 1 ∷ 0 ∷ 1 ∷ answer_record (t0 ∷ t1 ∷ t2 ∷ t3 ∷ []) (a ∷ b ∷ c ∷ d ∷ [])),
  )

  -- The bytes behind the packed name.
  byte-m :
      (i j : ℕ)
      → j ≡ 12 + length packed + i
      → byte m j
        ≡ byte (0 ∷ 1 ∷ 0 ∷ 1 ∷ answer_record (t0 ∷ t1 ∷ t2 ∷ t3 ∷ []) (a ∷ b ∷ c ∷ d ∷ [])) i
  byte-m i j e =
      byte-append_right (h ∷ l ∷ 0x81 ∷ 0x80 ∷ 0 ∷ 1 ∷ 0 ∷ 1 ∷ 0 ∷ 0 ∷ 0 ∷ 0 ∷ []) (packed ++ tail)
        (length packed + i) j (omega arith)
      ∙ byte-append_right packed tail i (length packed + i) refl
    where
      tail : Bytes
      tail = 0 ∷ 1 ∷ 0 ∷ 1 ∷ answer_record (t0 ∷ t1 ∷ t2 ∷ t3 ∷ []) (a ∷ b ∷ c ∷ d ∷ [])

  response-IsReply : IsReply m (length m) (h * 256 + l) (length packed) a b c d
  response-IsReply = record {
    id_is = refl;
    questions = refl;
    answers = refl;
    question =
        skip_labels-IsPacked packed (h ∷ l ∷ 0x81 ∷ 0x80 ∷ 0 ∷ 1 ∷ 0 ∷ 1 ∷ 0 ∷ 0 ∷ 0 ∷ 0 ∷ [])
          (0 ∷ 1 ∷ 0 ∷ 1 ∷ answer_record (t0 ∷ t1 ∷ t2 ∷ t3 ∷ []) (a ∷ b ∷ c ∷ d ∷ [])) (length m)
          (length m) p (omega (arith, length-m)) (omega (arith, length-m));
    answer = record {
      ends = omega (arith, length-m);
      pointer = byte-m 4 _ (omega arith);
      type_high = byte-m 6 _ (omega arith);
      type_low = byte-m 7 _ (omega arith);
      class_high = byte-m 8 _ (omega arith);
      class_low = byte-m 9 _ (omega arith);
      size_high = byte-m 14 _ (omega arith);
      size_low = byte-m 15 _ (omega arith);
      first = byte-m 16 _ (omega arith);
      second = byte-m 17 _ (omega arith);
      third = byte-m 18 _ (omega arith);
      fourth = byte-m 19 _ (omega arith);
    };
  }

  -- A complete response to an outstanding query, with a packed question and one address record,
  -- stores the record's address under the name that the query was for, and frees the query.
  pub dns_on_response-response :
      (dns : Dns) (name : Bytes)
      → qtrack_getname dns.qtracks (h * 256 + l) ≡ some name
      → dns_on_response dns m (length m) ≡ record dns {
        cache = dns_cache_store dns.cache name (a * 2 ^ 24 + b * 2 ^ 16 + c * 2 ^ 8 + d);
        qtracks = qtrack_clear dns.qtracks (h * 256 + l);
      }
  dns_on_response-response dns name known =
      dns_on_response-IsReply dns name m (length m) (h * 256 + l) (length packed) a b c d
        response-IsReply known
