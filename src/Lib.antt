-- ===== src/Lib.antt =====
-- OldTools is a collection of small programs and libraries in C and C++. This library models the
-- parts that carry their own logic, as functions on the bytes that the programs read and write.
--
-- Huffman (HuffmanCompress/HuffmanCompress.c and HuffmanDecompress.c). The compressor counts the
-- bytes of its file (Huffman/Compress/Item), merges the two rarest entries of a sorted table
-- until one tree is left, walks the tree for the codes and the keys (Huffman/Compress/Codes),
-- and packs the codes of the bytes through a buffer of BUFFER_LENGTH * 8 characters
-- (Huffman/Compress/Writer). Huffman/Compress/Main is main. The decompressor builds a tree of
-- the keys (Huffman/Decompress/Build), follows it bit by bit (Huffman/Decompress/Decode), and
-- Huffman/Decompress/Main is its main. Huffman/Bits has the bits of a byte, Huffman/RoundTrip
-- what holds of both programs together. qsort is a parameter, a function that permutes its
-- array. An `int` that overflows while bytes are counted or merged is a fault, so a file of 2^31
-- bytes or more is one; Huffman/Compress/Item/Exact has the same without the bound, and
-- Huffman/Compress/Item/Fits is about files that are short enough for both. The other int
-- indices over the file overflow only if that of count_numbers does, and the coded data is taken
-- to have fewer than 2^31 bytes, which vbuf_iter of the decompressor counts.
-- `sprintf(result_string, "%s1", result_string)`, undefined in C since source and target
-- overlap, is taken to append the character; in huffman_build it is a fault where the 200
-- characters of result_string do not suffice. What print_huffman does is not modelled.
--
-- Splitter (splitter/ysplit.c): Splitter has ysplit1 and ysplit, one function for each step of
-- the loop body, and the array's capacity. Splitter/Laws is about joined strings.
--
-- HttpParser (http_parser/http_parser.c and .h): HttpParser has the parser, HttpParser/Query the
-- percent decoding, whose result ends at the first zero that it writes. HttpParser/Message
-- prints a request, HttpParser/RequestLine and HttpParser/RoundTrip are about parsing what was
-- printed, HttpParser/Errors about reading past the end.
--
-- Liby (liby/src/list.h and liby.c). Liby/Links has the intrusive doubly linked lists of list.h
-- over a memory in which an address is mapped or not; Liby/Links/Ring says when a head and its
-- entries form a ring, Ring/Update is about adding and deleting, Ring/Walk about list_for_each.
-- Liby/State has a client with its two queues of tasks, Liby/Tasks the queueing and the event
-- flags, Liby/Client liby_client_destroy, liby_client_update_state and the two functions that
-- serve a ready socket, Liby/Init how a client is made and registered with a server, Liby/Loop
-- the copies of the lists of a loop. The handlers of the program are a parameter, any function
-- on the state; what read and write return is a list of outcomes, behind which they return
-- EAGAIN; addresses that malloc returns are arguments. The code has the functions on tasks
-- twice, for reading and for writing; the model has them once, with a direction.
-- Liby/Client/Order and Client/Message are about serving a queue, Client/Lifetime about
-- destroying a client.
--
-- Uthread (uthread/uthread.c and uthread.h): Uthread has the coroutines and their scheduler over
-- a memory of threads, Uthread/Queue the list of threads, with Queue/Finished about
-- schedule_finished and Queue/Errors about uthread_pop and uthread_del. Uthread/Running says
-- which thread runs, and Uthread/Reach has the steps that a program may take.
--
-- BigInt (bigint/BigInt.h): BigInt has the digits to the base 2^32, the constructors from
-- machine integers and the tests, BigInt/Digits the number that digits stand for. BigInt/Mul is
-- about Mul and Power, with Mul/Laws and Mul/Power, BigInt/Sum about Add, Sub, the comparisons
-- and the shifts, with Sum/Carry, Sum/Borrow, Sum/Strip and Sum/Order, BigInt/Division about
-- Div, with Division/Digit, BigInt/Operators about the operators and ModPow, with
-- Operators/Product, and BigInt/Text about the conversions from and to strings, with Text/Hex.
-- `u32` and `u64` are what an unsigned integer of the machine keeps. An operand that is the same
-- object as the number is not modelled.
--
-- Buffer (liby_cpp/Buffer.cpp and Buffer.h): Buffer has the fields of the byte buffer, its
-- constructors and the copies of bytes, Buffer/Space how it makes room, Buffer/Transfer how
-- bytes go into it and out of it. Buffer/Holds says which bytes a buffer holds, Space/Room and
-- Transfer/Append, Transfer/Prepend, Transfer/Overrun and Transfer/Retrieve are about these
-- operations. What new memory holds is a parameter, a function on its places; a failed assertion
-- is an exit with 134.
--
-- HttpRequest (liby_cpp/http/Request.cpp and Request.h): HttpRequest has the fields of a request
-- and findFirstOf, HttpRequest/Parts the parsers of its parts, HttpRequest/Parse the switch over
-- the status. Parse/Search, Parse/Resume, Parse/Outcome and Parse/Split are about parsing in two
-- calls. A pointer is an index into the memory that the bytes stand in; an exception that a
-- noexcept function throws is an exit with 134.
--
-- BinaryHeap (liby_cpp/BinaryHeap.h): BinaryHeap has the heap and its operations,
-- BinaryHeap/Cells the laws of its vector, BinaryHeap/Order its order and a hole that goes up,
-- BinaryHeap/Child the least of two children, BinaryHeap/Fall a hole that goes down;
-- BinaryHeap/Up is about insert, BinaryHeap/Down about delete_min. The elements, their
-- `operator<` and their default are parameters. A vector has places for fewer than 2^31
-- elements, so that no size or place wraps.
--
-- TimerQueue (liby_cpp/TimerQueue.cpp and TimerQueue.h): the queue of timers, which keeps them
-- in a BinaryHeap. `armed` is the time that timerfd_settime was last given; what the handlers of
-- timers do to the queue is a parameter. TimerQueue/Expire is about handleTimeoutEvents; since
-- the `operator<` of timers is not an order, it uses BinaryHeap/Runs, which asks nothing of it.
--
-- Memory: a C string is the list of its bytes before the terminator; a pointer into a string is
-- the suffix it points to, and `none` is the null pointer. Reading or writing outside of a
-- string or an array, and following a null pointer, is the result `fault` of Common/Run, a call
-- of exit is `exited`. Allocation does not fail. strsep is written out in Common/Strings.
--
-- Loops that are not structural recursion have fuel: split_loop, parse_parts and parse_lines get
-- one round more than the string has bytes, and each round but the last removes a byte;
-- list_for_each gets its fuel as an argument, and each round but the last moves to the next
-- entry of the ring; Div gets the number of its rounds, and so do the loop of Buffer::reserve
-- and the calls that retriveveAsString makes of itself: what has not ended by then is `none`;
-- the lines of a header get one round more than there are bytes, and each round but the last
-- consumes one; a digit of Add takes three rounds of its carry at most, since the second carry
-- is 1 and finds room; the loop of insert in BinaryHeap.h gets one round more than the place it
-- starts from, which each round halves, and that of percolate_down one more than there are
-- elements, since each round goes to a higher place; the loop of handleTimeoutEvents has the
-- number of its rounds as an argument, since a handler may insert timers; the loops of
-- schedule_finished and uthread_del get it as an argument too. Running out of fuel is a fault,
-- so a theorem that gives a result also says that the fuel is enough. The loops of the Huffman
-- programs are structural: on the bytes, the bits, or the remaining length of the table.
--
-- Not modelled: threads and mutexes (one thread serves a client), the event loop and the sockets
-- of liby, printing and freeing, opening files, and the programs that are system calls around a
-- line or two of their own (liby/src/socket.c, time_server, tcpping, chat_client, killGWX). Of
-- the network library in C++ only the buffer, the parser of requests, the heap and the queue of
-- timers are modelled, and the programs in Go and JavaScript are left aside.
pub mod BigInt
pub mod BinaryHeap
pub mod Buffer
pub mod Common
pub mod HttpParser
pub mod HttpRequest
pub mod Huffman
pub mod Liby
pub mod Splitter
pub mod TimerQueue
pub mod Uthread
