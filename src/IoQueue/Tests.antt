-- ===== src/IoQueue/Tests.antt =====
-- The theorems on the ring and the pipe at concrete rings.
use sparrow_os.Common.{◌≡◌, refl, [], ◌∷◌, none, some, arith, length, take, drop}
use sparrow_os.IoQueue.{IoQueue, ioq_length, ioq_putchar, pipe_read, pipe_write}
use sparrow_os.IoQueue.View.{IsValid, contents}
use sparrow_os.IoQueue.Fifo.{Put, ioq_putchar-Put}
use sparrow_os.IoQueue.Pipe.{
  Written, SleepsAfter, ReadOff, pipe_read-ReadOff, pipe_write-Written, pipe_write-SleepsAfter,
}

-- The bytes 7, 7, 7 across the end of the buffer; thread 4 sleeps as the consumer.
abbrev ring : IoQueue
ring = record {
  lock = none;
  producer = none;
  consumer = some 4;
  buf = λ k. 7;
  head = 1;
  tail = 2046;
}

ring-IsValid : IsValid ring
ring-IsValid = omega arith

contents-ring : contents ring ≡ 7 ∷ 7 ∷ 7 ∷ []
unfolding ioq_length
contents-ring = refl

ioq_putchar-Put_example : Put 9 ring 8 (ioq_putchar 9 ring 8)
ioq_putchar-Put_example = ioq_putchar-Put ring-IsValid 9 8

pipe_read-ReadOff_example :
    ReadOff (take 2 (contents ring)) (drop 2 (contents ring)) (pipe_read 9 2 ring)
pipe_read-ReadOff_example = pipe_read-ReadOff 9 2 ring ring-IsValid

pipe_write-Written_example : Written 0 (1 ∷ 2 ∷ []) ring (pipe_write 9 (1 ∷ 2 ∷ []) ring)
pipe_write-Written_example =
    pipe_write-Written 9 (1 ∷ 2 ∷ []) ring ring-IsValid (rw contents-ring (omega arith))

-- One place short of full: 2046 bytes.
abbrev crowded : IoQueue
crowded = record {
  lock = none;
  producer = none;
  consumer = none;
  buf = λ k. 7;
  head = 2046;
  tail = 0;
}

length-crowded : length (contents crowded) ≡ 2046
unfolding ioq_length
length-crowded = refl

pipe_write-SleepsAfter_example :
    SleepsAfter 9 1 (1 ∷ []) crowded (pipe_write 9 (1 ∷ 2 ∷ []) crowded)
pipe_write-SleepsAfter_example =
    pipe_write-SleepsAfter 9 (1 ∷ 2 ∷ []) crowded 1 (omega arith) refl (rw length-crowded refl)
      (omega arith)
