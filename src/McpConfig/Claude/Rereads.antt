-- ===== src/McpConfig/Claude/Rereads.antt =====
-- lib/mcpconfig/claude.go: what `Replace` writes is read again.
use agentapi_plusplus.McpConfig.Claude.{
  RawMap, find, put, JsonMaps, servers_key, or_empty, read_doc, read_servers, read, encode_doc,
  with_servers, replace_in, replace,
}
use agentapi_plusplus.McpConfig.Codex.{ConfigFile, content, writes}
use agentapi_plusplus.Prelude.{
  Option, none, sym, arith, ◌≡◌, ◌>>=◌, refl, ap, ◌∙◌, false, [], ◌∷◌, ◌++◌, some, if◌then◌else◌,
  Text, text_eq, text_eq_refl, text_eq_iff,
}

pub find-put :
    (k j v : Text) (m : RawMap) → find j (put k v m) ≡ (if text_eq k j then some v else find j m)
find-put k j v [] = refl
find-put k j v ((i, w) ∷ m) =
    ground (arith, text_eq_iff k j, text_eq_iff i k, text_eq_iff i j, find-put k j v m)

find-put_self : (k v : Text) (m : RawMap) → find k (put k v m) ≡ some v
find-put_self k v m = find-put k k v m ∙ rw (text_eq_refl k) refl

find-put_ne : (k j v : Text) (m : RawMap) → text_eq k j ≡ false → find j (put k v m) ≡ find j m
find-put_ne k j v m h = find-put k j v m ∙ rw h refl

-- The raw texts are JSON, of which `value` is the value: writing a document indents them anew, which changes
-- the text but not the value.
module _ {V : Type 0} (value : Text → V) where
  abbrev pub value_of : Option Text → Option V
  value_of none = none
  value_of (some raw) = some (value raw)

  -- Two maps have the same keys, with the same values.
  abbrev pub AreSame : RawMap → RawMap → Type 0
  AreSame m n = (k : Text) → value_of (find k m) ≡ value_of (find k n)

  value_of-some :
      (o : Option Text) (raw : Text)
      → value_of o ≡ some (value raw)
      → (found : Text) × (o ≡ some found) × (value raw ≡ value found)
  value_of-some none raw h = cc
  value_of-some (some found) raw h = (found, refl, cc)

  module _ (json : JsonMaps) where
    -- What is read of a document that holds the text of some servers, up to values.
    read_servers-found :
        (new doc servers held : RawMap) (raw : Text)
        → AreSame new (put servers_key raw doc)
        → json.decode raw ≡ some (some held)
        → AreSame held servers
        → ((a b : Text) (m : RawMap)
            → value a ≡ value b
            → json.decode a ≡ some (some m)
            → (n : RawMap) × (json.decode b ≡ some (some n)) × AreSame m n)
        → (found : RawMap) × (read_servers json (find servers_key new) ≡ some found)
          × AreSame found servers
    read_servers-found new doc servers held raw same e held_same by_value =
        let (raw', at, v) =
          value_of-some (find servers_key new) raw
            (same servers_key ∙ ap value_of (find-put_self servers_key raw doc)) in
        let (n, d, n_same) = by_value raw raw' held v e in
        (n, rw at (rw d refl), λ k. sym (n_same k) ∙ held_same k)

    -- If the file holds a document, or there is none, the encoders succeed, and decoding what they give has
    -- the same keys and values (though not the same texts), then `Replace` writes a document from which
    -- `Read` takes servers with the same names and values again, and all other keys of the document keep
    -- their values. Decoding is to depend on the value of a text only.
    pub replace-read :
        (file : ConfigFile) (doc servers held new : RawMap) (raw out : Text)
        → read_doc json file ≡ some (some doc)
        → json.encode servers ≡ some raw
        → json.decode raw ≡ some (some held)
        → AreSame held servers
        → json.encode_indent (put servers_key raw doc) ≡ some out
        → json.decode (out ++ b'\n' ∷ []) ≡ some (some new)
        → AreSame new (put servers_key raw doc)
        → ((a b : Text) (m : RawMap)
            → value a ≡ value b
            → json.decode a ≡ some (some m)
            → (n : RawMap) × (json.decode b ≡ some (some n)) × AreSame m n)
        → (replace json file (some servers) ≡ some (writes (out ++ b'\n' ∷ [])))
          × ((found : RawMap) × (read json (content (out ++ b'\n' ∷ [])) ≡ some found)
              × AreSame found servers)
          × (read_doc json (content (out ++ b'\n' ∷ [])) ≡ some (some new))
          × ((k : Text)
              → text_eq servers_key k ≡ false
              → value_of (find k new) ≡ value_of (find k doc))
    unfolding replace read read_doc
    replace-read file doc servers held new raw out d e u held_same i v new_same by_value =
        let (found, r, found_same) =
          read_servers-found new doc servers held raw new_same u held_same by_value in
        (
          ap (λ x. replace_in json x (some servers)) d
              ∙ ap (with_servers json (some doc)) e
              ∙ ap (λ x. some (encode_doc json x)) i,
          (
            found,
            ap (λ x. x >>= λ y. read_servers json (find servers_key (or_empty y))) v ∙ r,
            found_same,
          ),
          v,
          λ k ne. new_same k ∙ ap value_of (find-put_ne servers_key k raw doc ne),
        )
