-- ===== src/Dialect/Valid.antt =====
-- The ordering rule of the dialect of libs/common/src/llm/llm-client.service.ts: an assistant message
-- with tool calls is followed by a `tool` message per call before anything else.
use codemind_backend.Common.{String, List, [], ◌∷◌, ◌++◌, map, ◌≡◌, refl, sym, ap, subst, ◌∙◌}
use codemind_backend.Agent.{
  Block, text, tool_use, other, ToolResult, Message, user, assistant, tool_results, tool_uses,
}
use codemind_backend.Agent.Answers.{result_id, use_id}
use codemind_backend.Dialect.{
  Codec, Call, DialectMessage, to_mistral_messages, translate, translate_all, tool_messages,
  said_texts, trailing_user, part_of, param_of, block_calls,
}

abbrev pub call_id : Call → String
call_id c = c.id

-- What may follow where calls of these ids wait for their answers.
abbrev pub Follows : List String → List DialectMessage → Type 0
Follows [] [] = Unit
Follows (i ∷ is_) [] = ⊥
Follows [] (DialectMessage.system t ∷ ms) = Follows [] ms
Follows [] (DialectMessage.user t ∷ ms) = Follows [] ms
Follows [] (DialectMessage.tool i c ∷ ms) = ⊥
Follows [] (DialectMessage.assistant t calls ∷ ms) = Follows (map call_id calls) ms
Follows (i ∷ is_) (DialectMessage.tool j c ∷ ms) = (j ≡ i) × Follows is_ ms
Follows (i ∷ is_) (DialectMessage.system t ∷ ms) = ⊥
Follows (i ∷ is_) (DialectMessage.user t ∷ ms) = ⊥
Follows (i ∷ is_) (DialectMessage.assistant t calls ∷ ms) = ⊥

-- The same on the messages of the loop: the results of a batch of calls come in one message, next.
abbrev pub Owes : List String → List Message → Type 0
Owes [] [] = Unit
Owes (i ∷ is_) [] = ⊥
Owes is_ (tool_results rs ∷ ms) = (map result_id rs ≡ is_) × Owes [] ms
Owes [] (user t ∷ ms) = Owes [] ms
Owes (i ∷ is_) (user t ∷ ms) = ⊥
Owes [] (assistant bs ∷ ms) = Owes (map use_id (tool_uses bs)) ms
Owes (i ∷ is_) (assistant bs ∷ ms) = ⊥

pub Owes-append :
    (ids : List String) (ms ns : List Message) → Owes ids ms → Owes [] ns → Owes ids (ms ++ ns)
Owes-append [] [] ns h k = k
Owes-append (i ∷ is_) [] ns h k = elim h [ ]
Owes-append ids (tool_results rs ∷ ms) ns (same, h) k = (same, Owes-append [] ms ns h k)
Owes-append [] (user t ∷ ms) ns h k = Owes-append [] ms ns h k
Owes-append (i ∷ is_) (user t ∷ ms) ns h k = elim h [ ]
Owes-append [] (assistant bs ∷ ms) ns h k = Owes-append (map use_id (tool_uses bs)) ms ns h k
Owes-append (i ∷ is_) (assistant bs ∷ ms) ns h k = elim h [ ]

call_ids :
    (k : Codec) (bs : List Block) → map call_id (block_calls k bs) ≡ map use_id (tool_uses bs)
call_ids k [] = refl
call_ids k (text t ∷ bs) = call_ids k bs
call_ids k (other ∷ bs) = call_ids k bs
call_ids k (tool_use u ∷ bs) = ap (λ l. u.id ∷ l) (call_ids k bs)

results_say_nothing : (rs : List ToolResult) → said_texts (map part_of rs) ≡ []
results_say_nothing [] = refl
results_say_nothing (r ∷ rs) = results_say_nothing rs

Follows-tool_messages :
    (rs : List ToolResult) (ms : List DialectMessage)
    → Follows [] ms
    → Follows (map result_id rs) (tool_messages (map part_of rs) ++ ms)
Follows-tool_messages [] ms h = h
Follows-tool_messages (r ∷ rs) ms h = (refl, Follows-tool_messages rs ms h)

append_nil : (ms : List DialectMessage) → ms ++ [] ≡ ms
append_nil [] = refl
append_nil (m ∷ ms) = ap (λ l. m ∷ l) (append_nil ms)

translated_results :
    (k : Codec) (rs : List ToolResult)
    → translate k (param_of (tool_results rs)) ≡ tool_messages (map part_of rs)
translated_results k rs =
    ap (λ ts. tool_messages (map part_of rs) ++ trailing_user ts) (results_say_nothing rs)
    ∙ append_nil (tool_messages (map part_of rs))

Owes-Follows :
    (k : Codec) (ids : List String) (ms : List Message)
    → Owes ids ms
    → Follows ids (translate_all k (map param_of ms))
Owes-Follows k [] [] h = tt
Owes-Follows k (i ∷ is_) [] h = elim h [ ]
Owes-Follows k ids (tool_results rs ∷ ms) (same, h) =
    subst
      (λ is_.
        Follows is_ (translate k (param_of (tool_results rs)) ++ translate_all k (map param_of ms)))
      same
      (subst (λ l. Follows (map result_id rs) (l ++ translate_all k (map param_of ms)))
        (sym (translated_results k rs)) (Follows-tool_messages rs _ (Owes-Follows k [] ms h)))
Owes-Follows k [] (user t ∷ ms) h = Owes-Follows k [] ms h
Owes-Follows k (i ∷ is_) (user t ∷ ms) h = elim h [ ]
Owes-Follows k [] (assistant bs ∷ ms) h =
    subst (λ is_. Follows is_ (translate_all k (map param_of ms))) (sym (call_ids k bs))
      (Owes-Follows k (map use_id (tool_uses bs)) ms h)
Owes-Follows k (i ∷ is_) (assistant bs ∷ ms) h = elim h [ ]

-- A conversation of the loop in which each batch of calls is answered by the next message is
-- translated to one that keeps the ordering rule of the dialect.
pub to_mistral_messages-Follows :
    (k : Codec) (prompt : String) (ms : List Message)
    → Owes [] ms
    → Follows [] (to_mistral_messages k prompt (map param_of ms))
unfolding to_mistral_messages
to_mistral_messages-Follows k prompt ms h = Owes-Follows k [] ms h
