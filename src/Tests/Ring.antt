-- ===== src/Tests/Ring.antt =====
-- The outgoing buffer at concrete rings.
use ikp_projekat.Common.{
  ◌+◌, ◌-◌, ◌^◌, ◌≡◌, refl, true, false, some, List, [], ◌∷◌, ◌++◌, arith, get_or, replicate,
}
use ikp_projekat.Broker.OutgoingBuffer.{
  OneOrMoreSockets, OutgoingBufferElement, OutgoingBuffer, put, get, initialize_outgoing_buffer,
  produce_new_message, Consumed, ends, consume,
}
use ikp_projekat.Broker.OutgoingBuffer.Window.{no_element, contents, IsValid}
use ikp_projekat.Broker.OutgoingBuffer.Refine.{initialize-IsValid, put_refines, get_refines}
use ikp_projekat.Broker.OutgoingBuffer.Turn.{
  ProducesRight, ConsumesRight, produce_new_message-ProducesRight, consume-ConsumesRight,
  consume_empty,
}

abbrev element : OutgoingBufferElement
element = record { message = some (b'1' ∷ 0 ∷ []); one_or_more_sockets = OneOrMoreSockets.one 7 }

abbrev array : List OutgoingBufferElement
array = replicate 100 element

abbrev empty : OutgoingBuffer
empty = record { array = array; fill_idx = 0; use_idx = 0; count = 0 }

-- The next element goes round the end of the array.
abbrev wrapped : OutgoingBuffer
wrapped = record { array = array; fill_idx = 1; use_idx = 98; count = 3 }

empty-IsValid : IsValid empty
empty-IsValid = record { whole = refl; use_in = omega arith; fits = omega arith; fill_at = refl }

wrapped-IsValid : IsValid wrapped
wrapped-IsValid = record { whole = refl; use_in = omega arith; fits = omega arith; fill_at = refl }

initialize-IsValid_example :
    IsValid (initialize_outgoing_buffer array) × (contents (initialize_outgoing_buffer array) ≡ [])
initialize-IsValid_example = initialize-IsValid array refl

put_refines_example :
    IsValid (put wrapped element)
    × ((put wrapped element).count ≡ 4)
    × (contents (put wrapped element) ≡ contents wrapped ++ element ∷ [])
put_refines_example = put_refines wrapped-IsValid element (λ e. omega arith)

get_refines_example :
    (e : OutgoingBufferElement) × (b' : OutgoingBuffer) × (get wrapped ≡ some (e, b'))
    × (contents wrapped ≡ e ∷ contents b')
    × IsValid b'
    × (b'.count + 1 ≡ 3)
get_refines_example = get_refines wrapped-IsValid (λ e. omega arith)

produce_new_message-ProducesRight_example :
    ProducesRight false false wrapped element (produce_new_message false false wrapped element)
produce_new_message-ProducesRight_example =
    produce_new_message-ProducesRight false false element wrapped-IsValid (λ e. cc)

consume-ConsumesRight_example :
    (c : Consumed) × (consume false false wrapped ≡ some c) × ConsumesRight false false wrapped c
consume-ConsumesRight_example = consume-ConsumesRight false wrapped-IsValid

consume_empty_example :
    (b' : OutgoingBuffer) × (consume true true empty ≡ some (ends (get_or array 0 no_element) b'))
    × (b'.count ≡ 2 ^ 32 - 1)
consume_empty_example = consume_empty empty-IsValid refl
